-- ===== src/Message/Header.antt =====
-- The header of a message in src/Message.cpp: the functions that set and get its fields, and
-- `writeHeader` and `readHeader`, which copy it into the block and out of it.
pub mod RoundTrip
use kcmsg.Prelude.{ℕ}
use kcmsg.Prelude.Bytes.{le_bytes, le_value}
use kcmsg.Message.{Message, MessageHeader, M, done, copy_in, copy_out, ◌>>=◌, ◌>>◌}

abbrev with_hdr : MessageHeader → Message → Message
with_hdr hdr m = record m { hdr = hdr }

unfoldable pub set_source_identifier : ℕ → Message → Message
set_source_identifier id m = with_hdr (record m.hdr { source_ident = id }) m

unfoldable pub get_source_identifier : Message → ℕ
get_source_identifier m = m.hdr.source_ident

unfoldable pub set_source_organization : ℕ → Message → Message
set_source_organization id m = with_hdr (record m.hdr { source_organization = id }) m

unfoldable pub get_source_organization : Message → ℕ
get_source_organization m = m.hdr.source_organization

unfoldable pub set_target_identifier : ℕ → Message → Message
set_target_identifier id m = with_hdr (record m.hdr { target_ident = id }) m

unfoldable pub get_target_identifier : Message → ℕ
get_target_identifier m = m.hdr.target_ident

unfoldable pub set_target_organization : ℕ → Message → Message
set_target_organization id m = with_hdr (record m.hdr { target_organization = id }) m

unfoldable pub get_target_organization : Message → ℕ
get_target_organization m = m.hdr.target_organization

unfoldable pub set_transaction_identifier : ℕ → Message → Message
set_transaction_identifier id m = with_hdr (record m.hdr { transaction_ident = id }) m

unfoldable pub get_transaction_identifier : Message → ℕ
get_transaction_identifier m = m.hdr.transaction_ident

unfoldable pub set_transaction_application : ℕ → Message → Message
set_transaction_application id m = with_hdr (record m.hdr { transaction_application = id }) m

unfoldable pub get_transaction_application : Message → ℕ
get_transaction_application m = m.hdr.transaction_application

unfoldable pub set_transaction_organization : ℕ → Message → Message
set_transaction_organization id m = with_hdr (record m.hdr { transaction_organization = id }) m

unfoldable pub get_transaction_organization : Message → ℕ
get_transaction_organization m = m.hdr.transaction_organization

unfoldable pub set_ttl : ℕ → Message → Message
set_ttl id m = with_hdr (record m.hdr { ttl = id }) m

unfoldable pub get_ttl : Message → ℕ
get_ttl m = m.hdr.ttl

abbrev pub header_source_ident_offset : ℕ
header_source_ident_offset = 0x00

abbrev pub header_source_organization_offset : ℕ
header_source_organization_offset = 0x04

abbrev pub header_target_ident_offset : ℕ
header_target_ident_offset = 0x06

abbrev pub header_target_organization_offset : ℕ
header_target_organization_offset = 0x0A

abbrev pub header_transaction_ident_offset : ℕ
header_transaction_ident_offset = 0x0C

abbrev pub header_transaction_application_offset : ℕ
header_transaction_application_offset = 0x0E

abbrev pub header_transaction_organization_offset : ℕ
header_transaction_organization_offset = 0x10

abbrev pub header_ttl_offset : ℕ
header_ttl_offset = 0x12

abbrev pub header_flags_offset : ℕ
header_flags_offset = 0x16

-- The buffers take the value of each field, and are copied one after the other.
unfoldable pub write_header : M (Unit {0})
write_header m =
    (do
      copy_in header_source_ident_offset (le_bytes 4 m.hdr.source_ident)
      copy_in header_source_organization_offset (le_bytes 2 m.hdr.source_organization)
      copy_in header_target_ident_offset (le_bytes 4 m.hdr.target_ident)
      copy_in header_target_organization_offset (le_bytes 2 m.hdr.target_organization)
      copy_in header_transaction_ident_offset (le_bytes 2 m.hdr.transaction_ident)
      copy_in header_transaction_application_offset (le_bytes 2 m.hdr.transaction_application)
      copy_in header_transaction_organization_offset (le_bytes 2 m.hdr.transaction_organization)
      copy_in header_ttl_offset (le_bytes 4 m.hdr.ttl)
      copy_in header_flags_offset (le_bytes 2 m.hdr.flags))
      m

unfoldable pub read_header : M (Unit {0})
read_header = do
  src_id ← copy_out header_source_ident_offset 4
  src_org ← copy_out header_source_organization_offset 2
  tgt_id ← copy_out header_target_ident_offset 4
  tgt_org ← copy_out header_target_organization_offset 2
  trans_id ← copy_out header_transaction_ident_offset 2
  trans_app ← copy_out header_transaction_application_offset 2
  trans_org ← copy_out header_transaction_organization_offset 2
  ttl ← copy_out header_ttl_offset 4
  flags ← copy_out header_flags_offset 2
  λ m. done tt (record m {
    hdr = record {
      source_ident = le_value src_id;
      source_organization = le_value src_org;
      target_ident = le_value tgt_id;
      target_organization = le_value tgt_org;
      transaction_ident = le_value trans_id;
      transaction_application = le_value trans_app;
      transaction_organization = le_value trans_org;
      ttl = le_value ttl;
      flags = le_value flags;
    };
  })

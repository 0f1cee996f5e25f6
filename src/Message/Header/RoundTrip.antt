-- ===== src/Message/Header/RoundTrip.antt =====
-- The header written and read back.
use kcmsg.Prelude.{ℕ, ◌^◌, ◌≤◌, ◌<◌, ◌≡◌, refl, ◌∙◌, ap, arith}
use kcmsg.Prelude.Bytes.{le_bytes, le_value, le_value-le_bytes}
use kcmsg.Buffer.{Buffer, load, store, load_ext}
use kcmsg.Message.{Message, MessageHeader, done, copy_in, copy_out, user_data_offset}
use kcmsg.Message.Invariant.{IsValid}
use kcmsg.Message.Header.{
  write_header, read_header, header_source_ident_offset, header_source_organization_offset,
  header_target_ident_offset, header_target_organization_offset, header_transaction_ident_offset,
  header_transaction_application_offset, header_transaction_organization_offset, header_ttl_offset,
  header_flags_offset,
}

-- Each field is in the range of its type.
pub record FitsTypes (h : MessageHeader) : Type 0 where
  pub source_ident : h.source_ident < 2 ^ 32
  pub source_organization : h.source_organization < 2 ^ 16
  pub target_ident : h.target_ident < 2 ^ 32
  pub target_organization : h.target_organization < 2 ^ 16
  pub transaction_ident : h.transaction_ident < 2 ^ 16
  pub transaction_application : h.transaction_application < 2 ^ 16
  pub transaction_organization : h.transaction_organization < 2 ^ 16
  pub ttl : h.ttl < 2 ^ 32
  pub flags : h.flags < 2 ^ 16

-- The block after `writeHeader`.
abbrev pub written : MessageHeader → Buffer → Buffer
written h b =
    store
      (store
        (store
          (store
            (store
              (store
                (store
                  (store (store b header_source_ident_offset (le_bytes 4 h.source_ident))
                    header_source_organization_offset (le_bytes 2 h.source_organization))
                  header_target_ident_offset (le_bytes 4 h.target_ident))
                header_target_organization_offset (le_bytes 2 h.target_organization))
              header_transaction_ident_offset (le_bytes 2 h.transaction_ident))
            header_transaction_application_offset (le_bytes 2 h.transaction_application))
          header_transaction_organization_offset (le_bytes 2 h.transaction_organization))
        header_ttl_offset (le_bytes 4 h.ttl))
      header_flags_offset (le_bytes 2 h.flags)

pub write_header_runs :
    (m : Message) → write_header m ≡ done tt (record m { bytes = written m.hdr m.bytes })
unfolding write_header copy_in
write_header_runs m = refl

pub read_header_runs :
    (m : Message) (h : MessageHeader)
    → FitsTypes h
    → read_header (record m { bytes = written h m.bytes })
      ≡ done tt (record m { bytes = written h m.bytes; hdr = h })
unfolding read_header copy_out load store
read_header_runs m h f =
    let same : ◌≡◌ {A = MessageHeader}
        (record {
          source_ident = le_value (le_bytes 4 h.source_ident);
          source_organization = le_value (le_bytes 2 h.source_organization);
          target_ident = le_value (le_bytes 4 h.target_ident);
          target_organization = le_value (le_bytes 2 h.target_organization);
          transaction_ident = le_value (le_bytes 2 h.transaction_ident);
          transaction_application = le_value (le_bytes 2 h.transaction_application);
          transaction_organization = le_value (le_bytes 2 h.transaction_organization);
          ttl = le_value (le_bytes 4 h.ttl);
          flags = le_value (le_bytes 2 h.flags);
        })
        h =
      λ i. record {
        source_ident = le_value-le_bytes 4 h.source_ident f.source_ident i;
        source_organization = le_value-le_bytes 2 h.source_organization f.source_organization i;
        target_ident = le_value-le_bytes 4 h.target_ident f.target_ident i;
        target_organization = le_value-le_bytes 2 h.target_organization f.target_organization i;
        transaction_ident = le_value-le_bytes 2 h.transaction_ident f.transaction_ident i;
        transaction_application =
            le_value-le_bytes 2 h.transaction_application f.transaction_application i;
        transaction_organization =
            le_value-le_bytes 2 h.transaction_organization f.transaction_organization i;
        ttl = le_value-le_bytes 4 h.ttl f.ttl i;
        flags = le_value-le_bytes 2 h.flags f.flags i;
      } in
    ap (λ (g : MessageHeader). done tt (record m { bytes = written h m.bytes; hdr = g })) same

-- `readHeader` after `writeHeader` gives back every field of the header, whatever the member `hdr`
-- holds by then, and neither of them fails.
pub read_header-write_header :
    (m : Message) (other : MessageHeader)
    → FitsTypes m.hdr
    → (m' : Message) × (write_header m ≡ done tt m')
      × (read_header (record m' { hdr = other }) ≡ done tt m')
read_header-write_header m other f = (
  record m { bytes = written m.hdr m.bytes },
  write_header_runs m,
  read_header_runs (record m { hdr = other }) m.hdr f,
)

pub written_outside : (h : MessageHeader) (b : Buffer) (i : ℕ) → 24 ≤ i → written h b i ≡ b i
unfolding store
written_outside h b i lo = ground arith

-- `writeHeader` keeps a message valid, and leaves the user data and the length as they are.
pub write_header-IsValid :
    (m : Message)
    → IsValid m
    → (m' : Message) × (write_header m ≡ done tt m')
      × IsValid m'
      × (m'.offset ≡ m.offset)
      × (m'.data_length ≡ m.data_length)
      × ((p n : ℕ) → user_data_offset ≤ p → load m'.bytes p n ≡ load m.bytes p n)
write_header-IsValid m v = (
  record m { bytes = written m.hdr m.bytes },
  write_header_runs m,
  record {
    begins = v.begins;
    ordered = v.ordered;
    within = v.within;
    field =
        load_ext (written m.hdr m.bytes) m.bytes 24 2
          (λ i lo hi. written_outside m.hdr m.bytes i lo)
        ∙ v.field;
  },
  refl,
  refl,
  λ p n lo.
      load_ext (written m.hdr m.bytes) m.bytes p n
        (λ i le hi. written_outside m.hdr m.bytes i (omega arith)),
)

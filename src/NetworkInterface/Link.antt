-- ===== src/NetworkInterface/Link.antt =====
-- The members of src/NetworkInterface.h for the link and the driver of an interface, and the values
-- that the constructor gives them.
use kcmsg.Prelude.{ℕ, Bool, false, []}
use kcmsg.Prelude.Text.{Text}

pub record Link : Type 0 where
  pub duplex : ℕ
  pub port : ℕ
  pub physical_address : ℕ
  pub auto_negociate : ℕ
  pub mdio_support : ℕ
  pub ethernet_tp_mdix : ℕ
  pub ethernet_tp_mdix_control : ℕ
  pub link_mode_masks_n_words : ℕ
  pub speed : ℕ
  pub reserved : ℕ
  pub link_mode_masks_supported : ℕ
  pub link_mode_masks_advertising : ℕ
  pub link_mode_masks_lp_advertising : ℕ

abbrev pub unknown_link : Link
unknown_link = record {
  duplex = 0xFF;
  port = 0;
  physical_address = 0;
  auto_negociate = 0;
  mdio_support = 0;
  ethernet_tp_mdix = 0;
  ethernet_tp_mdix_control = 0;
  link_mode_masks_n_words = 0;
  speed = 0;
  reserved = 0;
  link_mode_masks_supported = 0;
  link_mode_masks_advertising = 0;
  link_mode_masks_lp_advertising = 0;
}

pub record DriverTexts : Type 0 where
  pub driver : Text
  pub driver_version : Text
  pub firmware_version : Text
  pub expansion_rom_version : Text
  pub bus_information : Text

abbrev pub no_texts : DriverTexts
no_texts = record {
  driver = [];
  driver_version = [];
  firmware_version = [];
  expansion_rom_version = [];
  bus_information = [];
}

pub record DriverSupports : Type 0 where
  pub statistics : Bool
  pub test : Bool
  pub eeprom_access : Bool
  pub register_dump : Bool
  pub privledge_flags : Bool

abbrev pub no_support : DriverSupports
no_support = record {
  statistics = false;
  test = false;
  eeprom_access = false;
  register_dump = false;
  privledge_flags = false;
}

-- ===== src/Text.antt =====
-- Strings as byte lists, and the `hex` crate, which the program calls as `hex::encode` and
-- `hex::decode`: a parameter of what uses it.
pub mod Utf8
pub mod Trim
use bitchat_tui.Base.{Option}
use bitchat_tui.Bytes.{Bytes}

-- The UTF-8 bytes of a `String` or a `&str`.
abbrev pub Text : Type 0
Text = Bytes

pub record HexCrate : Type 0 where
  pub encode : Bytes → Text
  pub decode : Text → Option Bytes

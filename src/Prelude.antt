-- ===== src/Prelude.antt =====
-- Names that every module of the library uses: those of the libraries, passed on, and those of the
-- children (Boolean tests, lists measured by native numbers, maps, sets, integers, texts). Bytes is
-- for the modules that read and write them.
pub mod Tests
pub mod Lists
pub mod Assoc
pub mod Int
pub mod Text
pub mod Bytes
pub mod Leaves
pub mod Sets
pub mod Crc
pub mod Decimal
pub mod Atoi
pub use Prim.Native.Nat.{ℕ, zero, suc, ◌+◌, ◌-◌, ◌*◌, ◌/◌, ◌%◌, ◌^◌, ◌≤◌, ◌<◌}
pub use mathlib.Core.Path.{◌≡◌, refl, sym, ap, ◌∙◌, subst}
pub use mathlib.Core.Logic.{◌≢◌, ◌↔◌, ◌⊎◌, inl, inr, ite, dite, if_pos, if_neg}
pub use mathlib.Core.Bool.{Bool, true, false, not, ◌&&◌, ◌||◌}
pub use mathlib.Core.Option.{Option, none, some, some-injective}
pub use mathlib.Core.List.{List, [], ◌∷◌, ◌++◌, map, append_assoc, append-nil}
pub use native.Mathlib.Omega.{arith}
unfoldable pub use native.Mathlib.Decide.{dec_lt, dec_le, ℕ_discrete}
pub use Tests.*
pub use Lists.*
pub use Assoc.{find, put, remove, find-put, find-remove, Unique, put-Unique, remove-Unique}
unfoldable pub use Assoc.{Bytes-discrete}
pub use Prim.Native.String.{String}
unfoldable pub use Text.{String-discrete}
pub use Text.{String-ne}
unfoldable pub use Int.{ℤ-discrete}
pub use Int.{ℤ, pos, negsuc, is_pos, suc_ℤ, pred_ℤ, leb_ℤ, eqb_ℤ, eqb_ℤ-refl}
unfoldable pub use Decimal.{digits, int_text, pair_text}
pub use Decimal.{pair_text-injective}
unfoldable pub use Atoi.{codes, atoi, int_string}
pub use Atoi.{text_append}
unfoldable pub use Crc.{checksum_ieee}
pub use Sets.*

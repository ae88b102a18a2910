-- ===== src/FileName/Safe.antt =====
-- pkg/gosilver/path.go: a sanitised name can be created on every platform and stays as it is.
use go_silver_core.Prelude.{◌≡◌, Bool, false, [], ◌∷◌, Str, any}
use go_silver_core.FileName.{is_illegal, is_trimmed, is_empty, is_reserved}

abbrev ends_badly : Str → Bool
ends_badly [] = false
ends_badly (r ∷ []) = is_trimmed r
ends_badly (r ∷ s ∷ rs) = ends_badly (s ∷ rs)

pub record IsSafe (name : Str) : Type 0 where
  pub some_name : is_empty name ≡ false
  pub legal : any is_illegal name ≡ false
  pub end_ok : ends_badly name ≡ false
  pub free : is_reserved name ≡ false

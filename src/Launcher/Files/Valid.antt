-- ===== src/Launcher/Files/Valid.antt =====
-- Which user configs `validate_file_configs` of server/src/launcher.rs accepts.
use spark_plug.Common.{
  String, ◌≡◌, ◌↔◌, refl, true, false, Option, none, some, List, [], ◌∷◌, arith, string_eq, eq_iff,
  ◌⊎◌, inl, inr, ok, All, Result-cases,
}
use spark_plug.Map.{Map, get}
use spark_plug.Text.{split, trim, contains, starts_with}
use spark_plug.Launcher.Files.{
  check_path, check_paths, check_value, check_keys, file_config_keys, validate_file_configs,
}

-- A piece of a file list that names nothing, or a file behind a protocol other than `file://`.
abbrev pub IsRemote : String → Type 0
IsRemote path =
    (trim path ≡ "")
    ⊎ ((contains (trim path) "://" ≡ true) × (starts_with (trim path) "file://" ≡ false))

abbrev pub AllRemote : Option String → Type 0
AllRemote none = Unit
AllRemote (some value) = All IsRemote (split b',' value)

check_path_iff : (key path : String) → (check_path key path ≡ ok tt) ↔ IsRemote path
unfolding check_path
check_path_iff key path =
    (λ e. ground (arith, eq_iff (trim path) ""), λ h. ground (arith, eq_iff (trim path) ""))

check_paths_sound :
    (key : String) (paths : List String) → check_paths key paths ≡ ok tt → All IsRemote paths
unfolding check_paths
check_paths_sound key [] e = tt
check_paths_sound key (p ∷ ps) e = elim (Result-cases (check_path key p)) [
  | inl (u, f) ↦ ((check_path_iff key p).0 f, check_paths_sound key ps (rw (f, check_paths) at e))
  | inr (x, f) ↦ absurd (ground arith)
]

check_paths_complete :
    (key : String) (paths : List String) → All IsRemote paths → check_paths key paths ≡ ok tt
unfolding check_paths
check_paths_complete key [] h = refl
check_paths_complete key (p ∷ ps) h =
    rw ((check_path_iff key p).1 h.0, check_paths) (check_paths_complete key ps h.1)

check_value_iff :
    (key : String) (value : Option String) → (check_value key value ≡ ok tt) ↔ AllRemote value
unfolding check_value
check_value_iff key none = (λ e. tt, λ h. refl)
check_value_iff key (some v) =
    (check_paths_sound key (split b',' v), check_paths_complete key (split b',' v))

abbrev pub AllKeysRemote : Map String → List String → Type 0
AllKeysRemote configs keys = All (λ key. AllRemote (get configs key)) keys

check_keys_sound :
    (configs : Map String) (keys : List String)
    → check_keys configs keys ≡ ok tt
    → AllKeysRemote configs keys
unfolding check_keys
check_keys_sound configs [] e = tt
check_keys_sound configs (key ∷ keys) e = elim (Result-cases (check_value key (get configs key))) [
  | inl (u, f) ↦ (
    (check_value_iff key (get configs key)).0 f,
    check_keys_sound configs keys (rw (f, check_keys) at e),
  )
  | inr (x, f) ↦ absurd (ground arith)
]

check_keys_complete :
    (configs : Map String) (keys : List String)
    → AllKeysRemote configs keys
    → check_keys configs keys ≡ ok tt
unfolding check_keys
check_keys_complete configs [] h = refl
check_keys_complete configs (key ∷ keys) h =
    rw ((check_value_iff key (get configs key)).1 h.0, check_keys)
      (check_keys_complete configs keys h.1)

pub validate_file_configs_iff :
    (configs : Map String)
    → (validate_file_configs configs ≡ ok tt) ↔ AllKeysRemote configs file_config_keys
unfolding validate_file_configs
validate_file_configs_iff configs =
    (check_keys_sound configs file_config_keys, check_keys_complete configs file_config_keys)

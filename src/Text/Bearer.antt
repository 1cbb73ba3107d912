-- ===== src/Text/Bearer.antt =====
-- Texts of the form `Bearer <token>`.
use Prim.Native.String.{◌++◌}
use text.Mathlib.TextLemmas.{nil-append, cons-append, append_assoc}
use spark_plug.Common.{String, ◌≡◌, some, ok, true, sym, ◌∙◌}
use spark_plug.Text.{split_once, starts_with, drop}
use spark_plug.Text.Laws.{split_once_sound, starts_with_sound, starts_with-append, drop-append}
use spark_plug.Http.{HeaderMap, authorization}

-- The header reads `Bearer <token>`.
abbrev pub IsBearer : HeaderMap → String → Type 0
IsBearer headers token = headers authorization ≡ some (ok ("Bearer " ++ token))

pub split_bearer : (t : String) → split_once 32 ("Bearer " ++ t) ≡ some ("Bearer", t)
unfolding split_once
split_bearer t = rw (
  cons-append, cons-append, cons-append, cons-append, cons-append, cons-append, cons-append,
  nil-append,
)

pub bearer_of_split : (h t : String) → split_once 32 h ≡ some ("Bearer", t) → h ≡ "Bearer " ++ t
bearer_of_split h t e = split_once_sound h "Bearer" t e ∙ sym (append_assoc "Bearer" " " t)

pub bearer_of_prefix : (h : String) → starts_with h "Bearer " ≡ true → h ≡ "Bearer " ++ drop 7 h
bearer_of_prefix h e = starts_with_sound h "Bearer " e

pub prefix_bearer : (t : String) → starts_with ("Bearer " ++ t) "Bearer " ≡ true
prefix_bearer t = starts_with-append "Bearer " t

pub drop_bearer : (t : String) → drop 7 ("Bearer " ++ t) ≡ t
drop_bearer t = drop-append "Bearer " t

-- ===== src/Config/Urls.antt =====
-- When the server shows a UI URL or a log URL (server/src/config.rs).
use spark_plug.Common.{String, ◌≡◌, ◌≢◌, refl, Option, none, some, arith, string_eq, eq_iff}
use spark_plug.Config.{render_url}

-- A template, and a known application id that is not empty.
abbrev pub IsRendered : (String → String → String) → Option String → Option String → String → Type 0
IsRendered render template application_id url =
    (t : String) × (a : String) × (template ≡ some t)
    × (application_id ≡ some a)
    × (a ≢ "")
    × (url ≡ render t a)

render_url_sound :
    (render : String → String → String) (template application_id : Option String) (url : String)
    → render_url render template application_id ≡ some url
    → IsRendered render template application_id url
unfolding render_url
render_url_sound render none application_id url e = cc
render_url_sound render (some t) none url e = cc
render_url_sound render (some t) (some a) url e =
    let (filled, same) : (a ≢ "") × (url ≡ render t a) = ground (arith, eq_iff a "") in
    (t, a, refl, refl, filled, same)

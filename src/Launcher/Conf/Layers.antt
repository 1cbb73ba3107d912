-- ===== src/Launcher/Conf/Layers.antt =====
-- The four layers of a session's configuration: `build_conf` of server/src/launcher.rs.
use spark_plug.Common.{
  String, ◌≡◌, refl, Option, none, some, [], ◌∷◌, arith, string_eq, eq_iff, unwrap_or, or_else,
}
use spark_plug.Map.{Map, IsMap, get, insert, extend, get-insert, get-extend, insert-IsMap}
use spark_plug.Config.{SparkVersion}
use spark_plug.Launcher.Conf.{joined, merge_into, build_conf}

-- The maps of a version are maps.
pub record IsVersion (v : SparkVersion) : Type 0 where
  pub default_configs : IsMap (unwrap_or v.default_configs [])
  pub merge_configs : IsMap (unwrap_or v.merge_configs [])
  pub override_configs : IsMap (unwrap_or v.override_configs [])

-- What a merged value makes of the value below it.
abbrev pub merged : Option String → Option String → Option String
merged none existing = existing
merged (some value) existing = some (joined existing value)

get-merge_into :
    (configs m : Map String) (k : String)
    → IsMap m
    → get (merge_into configs m) k ≡ merged (get m k) (get configs k)
unfolding merge_into get
get-merge_into configs [] k h = refl
get-merge_into configs ((j, v) ∷ m) k h = ground (
  arith,
  get-merge_into (insert configs j (joined (get configs j) v)) m k h.1,
  get-insert configs j k (joined (get configs j) v),
  eq_iff j k,
)

-- The value of a key: the override, or else the merged value joined to the user's or else the
-- default value, or else that value.
pub get-build_conf :
    (v : SparkVersion) (user_config : Map String) (k : String)
    → IsVersion v
    → IsMap user_config
    → get (build_conf v user_config) k
      ≡ or_else (get (unwrap_or v.override_configs []) k) (
          merged
            (get (unwrap_or v.merge_configs []) k)
            (or_else (get user_config k) (get (unwrap_or v.default_configs []) k)))
unfolding build_conf
get-build_conf v user_config k h u =
    rw (get-extend _ (unwrap_or v.override_configs []) k h.override_configs) (
      rw (get-merge_into _ (unwrap_or v.merge_configs []) k h.merge_configs)
        (rw (get-extend (unwrap_or v.default_configs []) user_config k u)))

extend-IsMap : (m n : Map String) → IsMap m → IsMap (extend m n)
unfolding extend
extend-IsMap m [] h = h
extend-IsMap m ((k, v) ∷ n) h = extend-IsMap (insert m k v) n (insert-IsMap m k v h)

merge_into-IsMap : (c m : Map String) → IsMap c → IsMap (merge_into c m)
unfolding merge_into
merge_into-IsMap c [] h = h
merge_into-IsMap c ((k, v) ∷ m) h =
    merge_into-IsMap (insert c k (joined (get c k) v)) m (insert-IsMap c k (joined (get c k) v) h)

pub build_conf-IsMap :
    (v : SparkVersion) (user_config : Map String) → IsVersion v → IsMap (build_conf v user_config)
unfolding build_conf
build_conf-IsMap v user_config h = extend-IsMap _ (unwrap_or v.override_configs []) (
    merge_into-IsMap _ (unwrap_or v.merge_configs [])
      (extend-IsMap _ user_config h.default_configs))

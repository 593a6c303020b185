-- ===== src/Proxy/Place.antt =====
-- Where bridge/src/proxy.rs writes `active.json`.
use noctalia_appmenu.Prelude.{none, some, Text, codes}
use noctalia_appmenu.Desktop.Entry.{Env}
use noctalia_appmenu.Desktop.Resolve.{join}

abbrev cache_home : Env → Text
cache_home env = elim (env (codes "XDG_CACHE_HOME")) [
  | some xdg ↦ xdg
  | none ↦ elim (env (codes "HOME")) [
    | some home ↦ join home (codes ".cache")
    | none ↦ codes "/tmp"
  ]
]

unfoldable pub active_json_path : Env → Text
active_json_path env = join (join (cache_home env) (codes "noctalia-appmenu")) (codes "active.json")

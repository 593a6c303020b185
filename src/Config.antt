-- ===== src/Config.antt =====
-- bridge/src/config.rs: the configuration and where it is loaded from. The TOML reader is a
-- parameter.
use noctalia_appmenu.Prelude.{ℕ, Bool, true, Option, none, some, if◌then◌else◌, Text, codes}
use noctalia_appmenu.Desktop.Entry.{Env}
use noctalia_appmenu.Desktop.Resolve.{join}

pub record Config : Type 0 where
  pub focus_debounce_ms : ℕ
  pub registrar_debounce_ms : ℕ
  pub niri_binary : Text
  pub publish_service : Text
  pub publish_path : Text
  pub desktop_fallback : Bool

-- `Config::default`
abbrev pub default_config : Config
default_config = record {
  focus_debounce_ms = 75;
  registrar_debounce_ms = 250;
  niri_binary = codes "niri";
  publish_service = codes "org.noctalia.AppMenu";
  publish_path = codes "/org/noctalia/AppMenu/Active";
  desktop_fallback = true;
}

unfoldable pub default_config_path : Env → Option Text
default_config_path env =
    let below =
      λ (base : Text). join (join base (codes "noctalia-appmenu-bridge")) (codes "config.toml") in
    elim (env (codes "XDG_CONFIG_HOME")) [
      | some xdg ↦ some (below xdg)
      | none ↦ elim (env (codes "HOME")) [
        | some home ↦ some (below (join home (codes ".config")))
        | none ↦ none
      ]
    ]

-- The files as `Config::load` sees them, and `toml::from_str`.
pub record ConfigFiles : Type 0 where
  pub exists_at : Text → Bool
  pub read_to_string : Text → Option Text
  pub from_str : Text → Option Config

abbrev load_at : ConfigFiles → Text → Option Config
load_at files path =
    if files.exists_at path
    then elim (files.read_to_string path) [ none ↦ none | some text ↦ files.from_str text ]
    else some default_config

-- `Config::load`; `none` is an error.
unfoldable pub load : Env → ConfigFiles → Option Text → Option Config
load env files (some p) = load_at files p
load env files none = elim (default_config_path env) [ none ↦ none | some p ↦ load_at files p ]

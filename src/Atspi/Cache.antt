-- ===== src/Atspi/Cache.antt =====
-- `mod menu_cache` of bridge/src/atspi.rs: the walked menus, kept for a while.
pub mod Laws
use noctalia_appmenu.Prelude.{
  ℕ, Option, none, some, ltb, if◌then◌else◌, Text, Duration, Instant, from_secs, elapsed,
}
use noctalia_appmenu.Prelude.Map.{Map, insert, remove, Mutex, locked, window_key, WindowKey}
use noctalia_appmenu.Menu.Tree.{MenuItem}

-- `MENU_CACHE_TTL`
abbrev pub menu_cache_ttl : Duration
menu_cache_ttl = from_secs 30

pub record Entry : Type 0 where
  pub menu : Option MenuItem
  pub fetched_at : Instant

-- `CACHE`
abbrev pub MenuCache : Type 0
MenuCache = Mutex (Map WindowKey Entry)

unfoldable pub get : MenuCache → Instant → Text → ℕ → ℕ → Option (Option MenuItem)
get cache now app_id pid winid =
    if cache.poisoned then none else elim (cache.value (app_id, pid, winid)) [
      | none ↦ none
      | some entry ↦
          if ltb menu_cache_ttl (elapsed now entry.fetched_at) then none else some entry.menu
    ]

unfoldable pub put : MenuCache → Instant → Text → ℕ → ℕ → Option MenuItem → MenuCache
put cache now app_id pid winid menu =
    locked (insert (app_id, pid, winid) (record { menu = menu; fetched_at = now })) cache

unfoldable pub invalidate : MenuCache → Text → ℕ → ℕ → MenuCache
invalidate cache app_id pid winid = locked (remove (app_id, pid, winid)) cache

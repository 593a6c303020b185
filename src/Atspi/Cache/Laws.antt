-- ===== src/Atspi/Cache/Laws.antt =====
-- What the menu cache answers after a menu was stored.
use noctalia_appmenu.Prelude.{
  ℕ, ◌+◌, ◌-◌, ◌≤◌, ◌≡◌, ◌&&◌, ◌==◌, false, Option, none, some, arith, ltb, if◌then◌else◌, Text,
  Instant, from_secs, text_eq,
}
use noctalia_appmenu.Prelude.Str.Laws.{text_eq_refl}
use noctalia_appmenu.Menu.Tree.{MenuItem}
use noctalia_appmenu.Atspi.Cache.{MenuCache, get, put}

-- A stored walk, a menu or its absence, is answered for its own window during the 30 s that follow,
-- the last instant included, and then no more. No other window's answer is touched. (The lock is
-- not poisoned.)
pub get-put :
    (cache : MenuCache) (t now : Instant) (app_id app_id' : Text) (pid pid' winid winid' : ℕ)
    (menu : Option MenuItem)
    → cache.poisoned ≡ false
    → get (put cache t app_id pid winid menu) now app_id' pid' winid' ≡ (
        if text_eq app_id app_id' && (pid == pid' && winid == winid')
        then (if ltb (from_secs 30) (now - t) then none else some menu)
        else get cache now app_id' pid' winid')
unfolding get put
get-put cache t now app_id app_id' pid pid' winid winid' menu h = ground arith

pub get-put_same :
    (cache : MenuCache) (t now : Instant) (app_id : Text) (pid winid : ℕ) (menu : Option MenuItem)
    → cache.poisoned ≡ false
    → now ≤ t + from_secs 30
    → get (put cache t app_id pid winid menu) now app_id pid winid ≡ some menu
unfolding get put
get-put_same cache t now app_id pid winid menu h soon = ground (arith, text_eq_refl app_id)

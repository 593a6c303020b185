-- ===== src/Desktop/Resolve/Memoised.antt =====
-- How long an answer of `resolve` stands.
use noctalia_appmenu.Prelude.{◌+◌, ◌<◌, ◌≡◌, false, none, arith, Text, Instant, from_secs, trim}
use noctalia_appmenu.Prelude.Str.Laws.{text_eq_refl}
use noctalia_appmenu.Desktop.Resolve.{System, ResolveCache, fresh_memo, resolve}

-- Two lookups of the same trimmed `app_id` less than 60 s apart give the same entry, also where the
-- files or the environment have changed between them: where no answer is remembered at the first,
-- and the lock is not poisoned, the second answers from what the first stored, and stores nothing.
pub resolve-resolve :
    (sys sys' : System) (cache : ResolveCache) (t now : Instant) (app_id app_id' : Text)
    → cache.poisoned ≡ false
    → fresh_memo cache t (trim app_id) ≡ none
    → trim app_id' ≡ trim app_id
    → now < t + from_secs 60
    → resolve sys' (resolve sys cache t app_id).0 now app_id' ≡ resolve sys cache t app_id
unfolding resolve
resolve-resolve sys sys' cache t now app_id app_id' unpoisoned absent same soon =
    ground (arith, text_eq_refl (trim app_id))

-- ===== src/Main/Watchers/Delivery.antt =====
-- internal/wachers.go: which files are watched, and which signals reach start.
use ascend_device_plugin.Base.{
  String, Bool, ◌≡◌, ◌⊎◌, refl, inl, inr, List, [], ◌∷◌, ◌++◌, Option, none, some, map, keep,
  Bool-cases,
}
use ascend_device_plugin.Main.Watchers.{
  Fsnotify, WatcherCall, closed, added, Signal, OsWatcher, is_among, new_os_watcher, notify,
  notify_all, start_signals, first_of,
}

module _ (fsnotify : Fsnotify) where
  abbrev Adds : List String → Option String × List WatcherCall → Type 0
  Adds files r =
      (r ≡ (none, map added files))
      ⊎ ((before : List String) × (file : String) × (after : List String) × (text : String) × (files
            ≡ before ++ file ∷ after)
          × (fsnotify.add file ≡ some text)
          × (r ≡ (some text, map added before ++ closed ∷ [])))

notify-full : (s x : Signal) (w : OsWatcher) → w.buffer ≡ some x → (notify s w).buffer ≡ some x
unfolding notify
notify-full s x w h = elim (Bool-cases (w.asked s)) [
  | inl wanted ↦ rw (wanted, h, notify) refl
  | inr unwanted ↦ rw (unwanted, notify) h
]

notify_all-full :
    (sigs : List Signal) (x : Signal) (w : OsWatcher)
    → w.buffer ≡ some x
    → (notify_all sigs w).buffer ≡ some x
unfolding notify_all
notify_all-full [] x w h = h
notify_all-full (s ∷ sigs) x w h = notify_all-full sigs x (notify s w) (notify-full s x w h)

notify_all-first :
    (sigs : List Signal) (asked : Signal → Bool)
    → (notify_all sigs (record { asked = asked; buffer = none })).buffer
      ≡ first_of (keep asked sigs)
unfolding notify_all notify
notify_all-first [] asked = refl
notify_all-first (s ∷ sigs) asked = elim (Bool-cases (asked s)) [
  | inl wanted ↦
      rw (wanted, notify_all)
        (notify_all-full sigs s (record { asked = asked; buffer = some s }) refl)
  | inr unwanted ↦ rw (unwanted, notify_all) (notify_all-first sigs asked)
]

-- Of all signals that arrive while start is not at its select, it receives the first that it asked for, and
-- never any of the others: a SIGTERM behind a SIGHUP is lost.
pub start_signals-first :
    (sigs : List Signal)
    → (notify_all sigs (new_os_watcher start_signals)).buffer
      ≡ first_of (keep (is_among start_signals) sigs)
unfolding new_os_watcher
start_signals-first sigs = notify_all-first sigs (is_among start_signals)

-- ===== src/Main/Watchers.antt =====
-- internal/wachers.go: NewFSWatcher and NewOSWatcher, as start of cmd/main.go calls them.
pub mod Delivery
use ascend_device_plugin.Base.{
  ℕ, String, Bool, true, false, ◌≡◌, ◌≢◌, ◌⊎◌, refl, ap, ◌∙◌, inl, inr, List, [], ◌∷◌, ◌++◌, Option,
  none, some, map, keep, Option-cases, Bool-cases, if◌then◌else◌,
}
use ascend_device_plugin.Main.{Event, hang_up, other_signal, Reaction, restarts, exits, reaction}

-- fsnotify: the texts of the errors of NewWatcher and of Add.
pub record Fsnotify : Type 0 where
  pub new_watcher : Option String
  pub add : String → Option String

pub data WatcherCall : Type 0 where
  created closed : WatcherCall
  added : String → WatcherCall

module _ (fsnotify : Fsnotify) where
  unfoldable pub add_files : List String → Option String × List WatcherCall
  add_files [] = (none, [])
  add_files (file ∷ files) =
      let (failed, calls) = add_files files in
      elim (fsnotify.add file) [
        | some text ↦ (some text, closed ∷ [])
        | none ↦ (failed, added file ∷ calls)
      ]

  -- The error, if any, with the calls that succeeded.
  unfoldable pub new_fs_watcher : List String → Option String × List WatcherCall
  new_fs_watcher files = elim fsnotify.new_watcher [
    | some text ↦ (some text, [])
    | none ↦ let (failed, calls) = add_files files in (failed, created ∷ calls)
  ]

  abbrev pub Watches : List String → Option String × List WatcherCall → Type 0
  Watches files r =
      (r ≡ (none, created ∷ map added files))
      ⊎ ((text : String) × (r ≡ (some text, [])))
      ⊎ ((before : List String) × (file : String) × (after : List String) × (text : String) × (files
            ≡ before ++ file ∷ after)
          × (fsnotify.add file ≡ some text)
          × (r ≡ (some text, created ∷ (map added before ++ closed ∷ []))))

-- The signals that start asks for, and any other.
pub data Signal : Type 0 where
  sighup sigint sigterm sigquit other : Signal

-- The channel with room for one signal, and the signals that signal.Notify was given.
pub record OsWatcher : Type 0 where
  pub asked : Signal → Bool
  pub buffer : Option Signal

abbrev pub same_signal : Signal → Signal → Bool
same_signal sighup sighup = true
same_signal sigint sigint = true
same_signal sigterm sigterm = true
same_signal sigquit sigquit = true
same_signal other other = true
same_signal _ _ = false

abbrev pub is_among : List Signal → Signal → Bool
is_among [] s = false
is_among (x ∷ xs) s = if same_signal x s then true else is_among xs s

unfoldable pub new_os_watcher : List Signal → OsWatcher
new_os_watcher sigs = record { asked = is_among sigs; buffer = none }

-- signal.Notify does not block: a signal that finds the channel full is dropped.
unfoldable pub notify : Signal → OsWatcher → OsWatcher
notify s w =
    if w.asked s
    then record w { buffer = elim w.buffer [ none ↦ some s | some waiting ↦ some waiting ] }
    else w

unfoldable pub notify_all : List Signal → OsWatcher → OsWatcher
unfolding notify
notify_all [] w = w
notify_all (s ∷ sigs) w = notify_all sigs (notify s w)

abbrev pub start_signals : List Signal
start_signals = sighup ∷ sigint ∷ sigterm ∷ sigquit ∷ []

-- What the select of start makes of a signal.
abbrev pub signal_event : Signal → Event
signal_event sighup = hang_up
signal_event _ = other_signal

abbrev pub first_of : List Signal → Option Signal
first_of [] = none
first_of (s ∷ sigs) = some s

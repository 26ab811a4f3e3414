-- ===== src/Activation/Registry/Examples.antt =====
-- Two activations of one connection, the second of which replaces the first.
use nm_daemon.Base.{ℕ, ◌≡◌, refl, String, Bool, true, Option, none, some, List, [], ◌∷◌}
use nm_daemon.Activation.Registry.{
  Key, Guard, guard_of, find_activation, Operation, begins, ends, holds, touches, tracks, run,
}
use nm_daemon.Activation.Registry.Current.{current, log, finds_current}

abbrev key : Key
key = (":1.2", "uuid:home")

-- Last first.
abbrev replaced : List Operation
replaced = begins key 90000 ∷ touches 0 tracks ∷ holds key ∷ begins key 60000 ∷ []

finds_current_example :
    find_activation key (run (ends 0 ∷ replaced)) ≡ current key (log (ends 0 ∷ replaced)).events
finds_current_example = finds_current (ends 0 ∷ replaced) key

second_found : find_activation key (run (ends 0 ∷ replaced)) ≡ some 1
unfolding find_activation nm_daemon.Base.Map.lookup run nm_daemon.Activation.Registry.step
    nm_daemon.Activation.Registry.end_activation nm_daemon.Activation.Registry.begin_activation
    nm_daemon.Base.Map.insert nm_daemon.Base.Map.filter_values
second_found = refl

none_found : find_activation key (run (ends 1 ∷ replaced)) ≡ none
unfolding find_activation nm_daemon.Base.Map.lookup run nm_daemon.Activation.Registry.step
    nm_daemon.Activation.Registry.end_activation nm_daemon.Activation.Registry.begin_activation
    nm_daemon.Base.Map.insert nm_daemon.Base.Map.filter_values nm_daemon.Base.Map.remove
none_found = refl

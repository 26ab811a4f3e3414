-- ===== src/Secret/Once/Counts.antt =====
-- How the counts of the registry change when an entry goes, comes, or is told.
use nm_daemon.Base.{
  if◌then◌else◌, text_pair_eq, ℕ, ◌+◌, ◌≤◌, ◌≡◌, refl, String, Bool, true, false, Option, none,
  some, List, [], ◌∷◌, arith, ◌==◌, nat_eq, string_eq, option_eq,
}
use nm_daemon.Base.Map.{Map, lookup, insert, remove}
use nm_daemon.Secret.Registry.{Key, PendingEntry, PendingRegistry, SecretResponse, id_of_key}
use nm_daemon.Secret.Agent.{}

abbrev pub one_if : Bool → ℕ
one_if true = 1
one_if false = 0

-- How many pending requests a channel belongs to, and how many messages went over it.
abbrev pub open_on : ℕ → Map String PendingEntry → ℕ
open_on c [] = 0
open_on c ((id, e) ∷ m) = one_if (e.sender == c) + open_on c m

abbrev pub sent_on : ℕ → List (ℕ × SecretResponse) → ℕ
sent_on c [] = 0
sent_on c ((channel, response) ∷ sent) = one_if (channel == c) + sent_on c sent

-- How many of those messages were cancellations.
abbrev pub cancelled_on : ℕ → List (ℕ × SecretResponse) → ℕ
cancelled_on c [] = 0
cancelled_on c ((channel, response) ∷ sent) =
    (if response.cancelled then one_if (channel == c) else 0) + cancelled_on c sent

-- How many pending requests have a key.
abbrev pub prompts_for : Key → Map String PendingEntry → ℕ
prompts_for k [] = 0
prompts_for k ((id, e) ∷ m) = one_if (e.request.key == k) + prompts_for k m

abbrev pub uses : ℕ → PendingRegistry → ℕ
uses c r = open_on c r.requests + sent_on c r.sent

abbrev pub taken_on : ℕ → Option ℕ → ℕ
taken_on c none = 0
taken_on c (some channel) = one_if (channel == c)

abbrev pub entry_on : ℕ → Option PendingEntry → ℕ
entry_on c none = 0
entry_on c (some e) = one_if (e.sender == c)

pub open_on-remove :
    (c : ℕ) (id : String) (m : Map String PendingEntry)
    → open_on c (remove id m) + entry_on c (lookup id m) ≤ open_on c m
unfolding remove lookup
open_on-remove c id [] = omega arith
open_on-remove c id ((j, e) ∷ m) = ground (arith, open_on-remove c id m)

pub prompts_for-remove :
    (k : Key) (id : String) (m : Map String PendingEntry)
    → prompts_for k (remove id m) ≤ prompts_for k m
unfolding remove
prompts_for-remove k id [] = omega arith
prompts_for-remove k id ((j, e) ∷ m) = ground (arith, prompts_for-remove k id m)

pub open_on-insert :
    (c : ℕ) (id : String) (e : PendingEntry) (m : Map String PendingEntry)
    → open_on c (insert id e m) + entry_on c (lookup id m) ≤ open_on c m + one_if (e.sender == c)
unfolding insert lookup
open_on-insert c id e [] = omega arith
open_on-insert c id e ((j, f) ∷ m) = ground (arith, open_on-insert c id e m)

pub prompts_for-insert :
    (k : Key) (id : String) (e : PendingEntry) (m : Map String PendingEntry)
    → prompts_for k (insert id e m) ≤ prompts_for k m + one_if (e.request.key == k)
unfolding insert
prompts_for-insert k id e [] = omega arith
prompts_for-insert k id e ((j, f) ∷ m) = ground (arith, prompts_for-insert k id e m)

-- A key that is found loses a prompt with its request, and one that is not found has none.
pub prompts_for_found :
    (k : Key) (m : Map String PendingEntry) (id : String)
    → id_of_key k m ≡ some id
    → prompts_for k (remove id m) + 1 ≤ prompts_for k m
unfolding remove
prompts_for_found k [] id h = absurd (ground arith)
prompts_for_found k ((j, e) ∷ m) id h =
    ground (arith, prompts_for_found k m id, prompts_for-remove k id m, string_eq.beq_iff j id)

pub prompts_for_absent :
    (k : Key) (m : Map String PendingEntry) → id_of_key k m ≡ none → prompts_for k m ≡ 0
prompts_for_absent k [] h = refl
prompts_for_absent k ((j, e) ∷ m) h = ground (arith, prompts_for_absent k m)

-- ===== src/Contract/Basic/Ballot.antt =====
-- packages/main/src/contract/basic.ts: `vote` and `unvote`.
use gny.Prelude.{
  ◌+◌, String, Bool, true, false, not, ◌||◌, List, [], ◌∷◌, ltb, if◌then◌else◌, nat_eq, string_eq,
  option_eq, is_some, length, contains,
}
use gny.Prelude.Int.{pos, ◌-ℤ◌, int_eq}
use gny.Prelude.Text.{split}
use gny.Interfaces.{Context, Result, ok, err, ◌>>=◌, ◌>>◌, throw_if}
use gny.Contract.Ledger.{
  Tables, find_first, has_name, increase_votes, create_vote, delete_vote, votes_of, lock_name,
}
use gny.Contract.Basic.{account_lock}

-- The loop of `isUniq`, with the set of what it has seen.
unique_after : List String → List String → Bool
unique_after seen [] = true
unique_after seen (name ∷ names) =
    let rest = unique_after (name ∷ seen) names in if contains seen name then false else rest

unfoldable pub is_uniq : List String → Bool
unfolding unique_after
is_uniq names = unique_after [] names

-- Whether a name of the list passes the test.
abbrev pub any : (String → Bool) → List String → Bool
any test [] = false
any test (name ∷ names) = test name || any test names

abbrev pub unknown : Tables → String → Bool
unknown db name = not (is_some (find_first (has_name name) db.delegates))

-- One vote: the weight of the delegate, and the row.
abbrev pub cast : Context → String → Tables → Result Tables
cast c name db =
    increase_votes name (pos c.sender.lock_amount) db
    >>= create_vote (record { voter_address = c.sender.address; delegate = name })

abbrev pub withdraw : Context → String → Tables → Result Tables
withdraw c name db =
    increase_votes name (pos 0 -ℤ pos c.sender.lock_amount) db
    >>= delete_vote (record { voter_address = c.sender.address; delegate = name })

unfoldable pub for_all : (String → Tables → Result Tables) → List String → Tables → Result Tables
for_all step [] db = ok db
for_all step (name ∷ names) db = step name db >>= λ db'. for_all step names db'

-- What `vote` and `unvote` check in the same way.
abbrev pub ballot : Context → List String → Result (Unit {0})
ballot c names =
    throw_if (not c.sender.is_locked) "Account is not locked"
    >> (throw_if (ltb 33 (length names)) "Voting limit exceeded"
        >> throw_if (not (is_uniq names)) "Duplicated vote item")

unfoldable pub vote : Context → List String → Tables → Result Tables
vote c (text ∷ []) db = lock_name (account_lock c) db >>= λ locked.
    let names = split b',' text in
    let current = votes_of c.sender.address locked in
    ballot c names
    >> (throw_if (ltb 101 (length current + length names)) "Maximum number of votes exceeded"
        >> (throw_if (any (contains current) names) "Already voted for delegate"
            >> (throw_if (any (unknown locked) names) "Voted delegate not exists"
                >> for_all (cast c) names locked)))
vote c _ db = err "Invalid arguments length"

unfoldable pub unvote : Context → List String → Tables → Result Tables
unvote c (text ∷ []) db = lock_name (account_lock c) db >>= λ locked.
    let names = split b',' text in
    let current = votes_of c.sender.address locked in
    ballot c names
    >> (throw_if (any (λ name. not (contains current name)) names) "Delegate not voted yet"
        >> (throw_if (any (unknown locked) names) "Voted delegate not exists"
            >> for_all (withdraw c) names locked))
unvote c _ db = err "Invalid arguments length"

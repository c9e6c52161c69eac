-- ===== src/Core/Rounds.antt =====
-- packages/main/src/core/blocks.ts, `increaseRoundData` and `applyRound`, with the bookkeeper of
-- packages/main/src/core/delegates.ts: what a block adds to its round, and the pay at the end of one.
use gny.Prelude.{
  ℕ, zero, suc, ◌+◌, ◌-◌, ◌*◌, ◌/◌, ◌%◌, String, ap, Bool, true, false, not, Option, none, some,
  List, [], ◌∷◌, ◌++◌, map, arith, ltb, if◌then◌else◌, ◌==◌, nat_eq, string_eq, option_eq, length,
  take, contains,
}
use gny.Prelude.Int.{ℤ, pos, ◌+ℤ◌, ◌-ℤ◌, ltb_ℤ, eqb_ℤ, int_eq}
use gny.Prelude.Map.{Map, lookup, insert, keys}
use Prim.Native.Char.{Char, code}
pub mod Pay
pub mod Paid
use gny.Utils.Slots.{calculate_round}
use gny.Interfaces.{Block, Result, ok, err, ◌>>=◌, ◌>>◌, throw_if, or_throw}
use gny.Base.Platform.{Platform}
use gny.Base.Address.{generate_address}
use gny.Contract.Ledger.{Delegate, Tables, find_first, update_first, filter, increase_gny}
use gny.Core.BlocksHelper.{get_fees_of_all}
use gny.Core.Delegates.{generate_delegate_list}

pub record Round : Type 0 where
  pub fee : ℕ
  pub reward : ℕ

-- The tables with the rows of `Round`, by number, and the `round_bookkeeper` variable.
pub record Books : Type 0 where
  pub tables : Tables
  pub rounds : Map ℕ Round
  pub bookkeeper : List String

-- The order of JavaScript on texts of one plane: by their codes.
text_ltb : String → String → Bool
text_ltb String.[] String.[] = false
text_ltb String.[] (String.◌∷◌ d t) = true
text_ltb (String.◌∷◌ c s) String.[] = false
text_ltb (String.◌∷◌ c s) (String.◌∷◌ d t) =
    let rest = text_ltb s t in if code c == code d then rest else ltb (code c) (code d)

abbrev key_of : Delegate → String
key_of d = elim d.public_key [ none ↦ "" | some key ↦ key ]

-- `compare(left, right) < 0`
unfoldable pub comes_first : Delegate → Delegate → Bool
unfolding text_ltb
comes_first left right =
    if eqb_ℤ left.votes right.votes
    then not (text_ltb (key_of left) (key_of right))
    else ltb_ℤ right.votes left.votes

insert_sorted : Delegate → List Delegate → List Delegate
insert_sorted d [] = d ∷ []
insert_sorted d (e ∷ rest) =
    let later = insert_sorted d rest in if comes_first d e then d ∷ e ∷ rest else e ∷ later

sort : List Delegate → List Delegate
sort [] = []
sort (d ∷ rest) = insert_sorted d (sort rest)

-- `getTopDelegates()`
unfoldable pub get_top_delegates : Tables → List String
unfolding sort insert_sorted
get_top_delegates db = take 101 (map key_of (sort db.delegates))

-- `updateBookkeeper()`
abbrev pub update_bookkeeper : Books → Books
update_bookkeeper b = record b { bookkeeper = get_top_delegates b.tables }

-- `increase(Delegate, …, { address })`
unfoldable pub increase_delegate : String → (Delegate → Delegate) → Tables → Result Tables
increase_delegate address f db =
    or_throw (find_first (λ d. d.address == address) db.delegates) "Entity not found" >>= λ _.
    ok (record db { delegates = update_first (λ d. d.address == address) f db.delegates })

-- `increaseRoundData(modifier, roundNumber)`
abbrev pub increased : ℕ → ℕ → Option Round → Round
increased fee reward none = record { fee = fee; reward = reward }
increased fee reward (some r) = record { fee = fee + r.fee; reward = reward + r.reward }

abbrev pub increase_round_data : ℕ → ℕ → ℕ → Books → Round × Books
increase_round_data fee reward number b =
    let r = increased fee reward (lookup number b.rounds) in
    (r, record b { rounds = insert number r b.rounds })

-- `updateDelegate(publicKey, fee, reward)` of `applyRound`
unfoldable pub update_delegate : Platform → String → ℤ → ℤ → Tables → Result Tables
update_delegate p key fee reward db =
    increase_delegate (generate_address p key)
      (λ d. record d { fees = d.fees +ℤ fee; rewards = d.rewards +ℤ reward }) db
    >>= increase_gny (generate_address p key) (fee +ℤ reward)

-- The loop over the delegates that missed their block.
unfoldable pub count_missed : Platform → List String → Tables → Result Tables
count_missed p [] db = ok db
count_missed p (key ∷ keys) db =
    increase_delegate (generate_address p key)
      (λ d. record d { missed_blocks = d.missed_blocks +ℤ pos 1 }) db
    >>= λ db'. count_missed p keys db'

-- The loop over the delegates that forged.
unfoldable pub pay_each : Platform → List String → ℤ → ℤ → Tables → Result Tables
pay_each p [] fee reward db = ok db
pay_each p (key ∷ keys) fee reward db =
    update_delegate p key fee reward db >>= λ db'. pay_each p keys fee reward db'

-- `average * n - actual`, as the source computes the remainder.
abbrev pub remainder : ℕ → ℕ → ℤ
remainder actual n = pos (actual / n * n) -ℤ pos actual

-- The end of a round: what was missed is counted, and each forger is paid.
unfoldable pub end_round :
    Platform → String → List String → List String → Round → Tables → Result Tables
end_round p last forged delegates r db =
    count_missed p (filter (λ key. not (contains forged key)) delegates) db >>= λ db'.
    pay_each p forged (pos (r.fee / length delegates)) (pos (r.reward / length delegates)) db'
    >>= update_delegate p last (remainder r.fee (length delegates))
        (remainder r.reward (length delegates))

-- `applyRound(block)`, with the forgers of the hundred blocks before, from the saved blocks.
unfoldable pub apply_round : Platform → (ℕ → String) → Block → List String → Books → Result Books
apply_round p decimal block forged_before b =
    if block.height == 0
    then ok (update_bookkeeper b)
    else (increase_delegate (generate_address p block.delegate)
          (λ d. record d { produced_blocks = d.produced_blocks +ℤ pos 1 }) b.tables
        >>= λ db.
            let (r, counted) =
              increase_round_data (get_fees_of_all block.transactions) block.reward
                (calculate_round block.height) (record b { tables = db }) in
            if not (block.height % 101 == 0)
            then ok counted
            else let delegates = generate_delegate_list p decimal block.height counted.bookkeeper in
              (throw_if (length delegates == 0) "no delegates"
                >> (end_round p block.delegate (forged_before ++ block.delegate ∷ []) delegates r db
                    >>= λ paid. ok (update_bookkeeper (record counted { tables = paid })))))

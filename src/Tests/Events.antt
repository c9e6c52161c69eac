-- ===== src/Tests/Events.antt =====
-- The theorems on the proposes and votes that a node receives, at concrete data.
use gny.Prelude.{◌≡◌, refl, true, false, none, some, [], ◌∷◌, arith, nat_eq, string_eq, option_eq}
use gny.Prelude.Int.{◌+ℤ◌, int_eq}
use gny.Prelude.Map.{lookup, insert}
use gny.Prelude.Text.{split}
use gny.Interfaces.{Block, BlockPropose, ManyVotes, ok, err}
use gny.Pool.{empty}
use gny.Base.Consensus.{create_propose, calculate_propose_hash, accept_propose, create_votes}
use gny.Core.BlocksHelper.{does_new_block_propose_match_old_one}
use gny.Core.Delegates.{
  get_active_delegate_keypairs, validate_propose_slot, generate_delegate_list, outer, inner, swap,
}
use gny.Core.Processing.{Chain, Node}
use gny.Core.Events.{Settings, Local, on_receive_propose}
use gny.Core.Events.Propose.{first_votes, too_soon, on_receive_propose_votes_once}
use gny.Core.Events.Voted.{IsVoted, on_receive_propose-IsVoted}
use gny.Tests.Samples.{platform, key_pair, public_key, genesis, state, tables, runtime}

abbrev node : Node
node = record {
  runtime = runtime;
  decimal = λ n. "1";
  normalize_block = ok;
  modules_are_loaded = true;
}

abbrev settings : Settings
settings = record {
  public_ip = some "1.1.1.1";
  peer_port = some "80";
  is_syncing = false;
  key_pairs = (public_key, key_pair) ∷ [];
  send = λ votes address. ok tt;
}

abbrev chain : Chain
chain = record {
  books = record { tables = tables; rounds = []; bookkeeper = public_key ∷ [] };
  session = tables;
  blocks = genesis ∷ [];
  transactions = [];
}

abbrev next_block : Block
next_block = record genesis { id = "next"; height = 5; timestamp = 3 }

abbrev propose : BlockPropose
propose = elim (create_propose platform key_pair next_block "1.1.1.1:80") [
  | ok made ↦ made
  | err _ ↦ record {
    address = "";
    generator_public_key = "";
    hash = "";
    height = 0;
    id = "";
    signature = "";
    timestamp = 0;
  }
]

abbrev votes : ManyVotes
votes = create_votes platform (key_pair ∷ []) 5 "next"

has_voted : first_votes (on_receive_propose node settings 9000 chain propose state).0 ≡ some votes
unfolding on_receive_propose does_new_block_propose_match_old_one validate_propose_slot
    generate_delegate_list outer inner swap accept_propose calculate_propose_hash split
    create_propose get_active_delegate_keypairs lookup insert create_votes ◌+ℤ◌
has_voted = refl

on_receive_propose-IsVoted_example :
    IsVoted node settings 9000 chain propose state votes
      (on_receive_propose node settings 9000 chain propose state).1
on_receive_propose-IsVoted_example =
    on_receive_propose-IsVoted node settings 9000 chain propose state votes has_voted

-- Another propose, two seconds later.
abbrev other : BlockPropose
other = record propose { hash = "other"; id = "other"; generator_public_key = "other" }

on_receive_propose_votes_once_example :
    first_votes
      (on_receive_propose node settings 11000 chain other
        (on_receive_propose node settings 9000 chain propose state).1).0
    ≡ none
on_receive_propose_votes_once_example =
    on_receive_propose_votes_once node settings 9000 chain propose state votes (omega arith)
      has_voted 11000 chain other (too_soon (omega arith))

abbrev local : Local
local = record {
  state = record state { pending_block = some next_block };
  chain = chain;
  pool = empty;
}

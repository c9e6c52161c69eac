-- ===== src/Tests/Assets.antt =====
-- The theorems on issued assets, at concrete data.
use gny.Prelude.{
  String, ◌≡◌, refl, Bool, true, false, none, [], ◌∷◌, arith, if◌then◌else◌, ◌==◌, nat_eq,
  string_eq, option_eq, get_elem?,
}
use gny.Prelude.Int.{pos, ◌+ℤ◌, ◌-ℤ◌, int_eq}
use gny.Prelude.Text.{utf16_length, parse_positive}
use gny.Interfaces.{Result, ok, err}
use gny.Contract.Assets.{
  AssetTables, register_asset, issue, transfer_asset, increase_balance, transfer_balance,
  lock_asset, create_asset_transfer,
}
use gny.Base.Address.{is_address}
use gny.Contract.Assets.Held.{held, transfer_asset-conserves}
use gny.Contract.Assets.Backing.{IsBacked, Backed, register_asset-IsBacked, issue-IsBacked}
use gny.Tests.Samples.{context, platform, bob, alice}

abbrev any_name : String → Bool
any_name name = true

-- Alice is an issuer.
abbrev no_assets : AssetTables
no_assets = record {
  accounts = alice ∷ [];
  issuers = record { name = "aaa"; issuer_id = "alice" } ∷ [];
  assets = [];
  balances = [];
  transfers = [];
  locks = [];
}

abbrev after : Result AssetTables → AssetTables
after (ok db) = db
after (err message) = no_assets

abbrev registered : AssetTables
registered = record no_assets {
  assets =
      record {
        name = "aaa.BBB";
        tid = "before";
        timestamp = 10;
        maximum = 500;
        precision = 2;
        quantity = 0;
        desc = "";
        issuer_id = "alice";
      }
      ∷ [];
}

abbrev issued : AssetTables
issued = record registered {
  balances = record { address = "alice"; currency = "aaa.BBB"; balance = pos 400; flag = 2 } ∷ [];
}

register_asset-IsBacked_example :
    IsBacked (after (register_asset any_name context "BBB" "" "500" 2 no_assets))
unfolding register_asset parse_positive lock_asset utf16_length
register_asset-IsBacked_example =
    register_asset-IsBacked any_name context "BBB" "" "500" 2 no_assets
      (after (register_asset any_name context "BBB" "" "500" 2 no_assets)) (λ name. refl) refl

registered-Backed : (t : Bool) → Backed (if t then get_elem? registered.assets 0 else none) (pos 0)
registered-Backed true = (refl, omega arith)
registered-Backed false = refl

issue-IsBacked_example : IsBacked (after (issue any_name context "aaa.BBB" "400" registered))
unfolding issue parse_positive lock_asset increase_balance ◌+ℤ◌
issue-IsBacked_example =
    issue-IsBacked any_name context "aaa.BBB" "400" registered
      (after (issue any_name context "aaa.BBB" "400" registered))
      (λ name. registered-Backed ("aaa.BBB" == name)) refl

transfer_asset-conserves_example :
    ((after (transfer_asset platform context "aaa.BBB" "300" bob issued)).assets ≡ issued.assets)
    × (held "aaa.BBB" (after (transfer_asset platform context "aaa.BBB" "300" bob issued)).balances
        ≡ held "aaa.BBB" issued.balances)
unfolding transfer_asset utf16_length transfer_balance parse_positive is_address increase_balance
    create_asset_transfer ◌+ℤ◌ ◌-ℤ◌
transfer_asset-conserves_example =
    transfer_asset-conserves platform context "aaa.BBB" "300" bob issued
      (after (transfer_asset platform context "aaa.BBB" "300" bob issued)) "aaa.BBB" refl

-- ===== src/Tests/Codecs.antt =====
-- The codec of codec.go over codecs that are lists of types and names.
use Prim.Native.String.{String}
use text.Mathlib.Text.{◌==◌ as str_eq}
use terra_go.Base.{
  ℕ, ◌≡◌, refl, ap, fun_ext, Bool, true, false, Option, none, some, List, [], ◌∷◌, Outcome, ok,
  panic, Action, pure, ◌>>◌, is_ok, arith, if◌then◌else◌, ◌==◌,
}
use terra_go.Value.{and_then}
use terra_go.Sdk.{MsgExecuteContract}
use terra_go.Sdk.Amino.{Amino, AminoLaws, register_all}
use terra_go.Codec.{make_codec}
use terra_go.Codec.Filling.{Distinct}
use terra_go.Codec.Registrations.{all_registrations, make_codec_sound}
use terra_go.Types.Messages.{get_sign_bytes}
use terra_go.Types.Messages.SignBytes.{get_sign_bytes-codec}
use terra_go.Tests.Node.{test_sdk, test_kinds}

abbrev Entries : Type 0
Entries = List (ℕ × String)

abbrev name_of : Entries → ℕ → Option String
name_of [] u = none
name_of ((t, name) ∷ c) u = if u == t then some name else name_of c u

abbrev type_of : Entries → String → Option ℕ
type_of [] k = none
type_of ((t, name) ∷ c) k = if str_eq k name then some t else type_of c k

abbrev unknown {ℓ} : {A : Type ℓ} → Option A → Bool
unknown none = true
unknown (some _) = false

abbrev add_entry : ℕ → String → Action Entries (Unit {0})
add_entry t name c =
    if unknown (name_of c t)
    then if unknown (type_of c name)
      then (ok tt, (t, name) ∷ c)
      else (panic "already registered", c)
    else (panic "already registered", c)

abbrev add_entries : Entries → Action Entries (Unit {0})
add_entries [] = pure tt
add_entries ((t, name) ∷ rs) = add_entry t name >> add_entries rs

abbrev swapped {ℓ} : {A : Type ℓ} → List A → List A
swapped [] = []
swapped (a ∷ []) = a ∷ []
swapped (a ∷ b ∷ ms) = b ∷ a ∷ ms

abbrev or_unregistered : Option String → Outcome String
or_unregistered none = panic "unregistered"
or_unregistered (some name) = ok name

abbrev test_amino : Amino test_sdk
test_amino = record {
  Concrete = ℕ;
  AppModuleBasic = Entries;
  ProposalHandler = Entries;
  new = [];
  register_concrete = add_entry;
  register_codec = add_entries;
  register_vesting = add_entries ((6, "core/BaseVestingAccount") ∷ []);
  register_types = add_entries [];
  register_crypto = add_entries ((7, "tendermint/PubKeySecp256k1") ∷ []);
  register_evidences = add_entries [];
  msg_store_code = 1;
  msg_instantiate_contract = 2;
  msg_execute_contract = 3;
  msg_migrate_contract = 4;
  msg_update_contract_owner = 5;
  visiting = swapped;
  genutil = (8, "core/Genesis") ∷ [];
  auth = (9, "core/Account") ∷ (10, "core/StdTx") ∷ [];
  bank = (11, "bank/MsgSend") ∷ [];
  staking = [];
  mint = [];
  distribution = [];
  gov = λ hs. [];
  params = [];
  crisis = [];
  slashing = [];
  supply = [];
  evidence = [];
  upgrade = [];
  oracle = [];
  market = [];
  treasury = [];
  msgauth = [];
  params_proposal = [];
  distribution_proposal = [];
  upgrade_proposal = [];
  tax_rate_update_proposal = [];
  reward_weight_update_proposal = [];
  must_marshal_json = λ c w. or_unregistered (name_of c 3);
  must_sort_json = λ text. ok text;
  route = λ w. "wasm";
  msg_type = λ w. "execute_contract";
  validate_basic = λ w. none;
  get_signers = λ w. w.sender ∷ [];
}

add_entries-eq : (rs c : Entries) → add_entries rs c ≡ register_all test_amino rs c
add_entries-eq [] c = refl
add_entries-eq ((t, name) ∷ rs) c =
    ap (λ (act : Action Entries (Unit {0})). (add_entry t name >> act) c)
      (fun_ext (add_entries-eq rs))

test_AminoLaws : AminoLaws test_amino
test_AminoLaws = record {
  name_of = name_of;
  concrete_of = type_of;
  same = λ t u. t == u;
  same_iff = λ t u. (λ h. ground arith, λ h. ground arith);
  name_of-new = λ t. refl;
  concrete_of-new = λ name. refl;
  registered = λ t name c. (t, name) ∷ c;
  register_fresh = λ t name c h k. rw (h, k) refl;
  name_of-registered = λ t name c u. refl;
  concrete_of-registered = λ t name c k. refl;
  register_known = λ t u name c h. ground arith;
  module_registrations = λ m. m;
  register_codec-eq = add_entries-eq;
  vesting_registrations = (6, "core/BaseVestingAccount") ∷ [];
  register_vesting-eq = add_entries-eq ((6, "core/BaseVestingAccount") ∷ []);
  types_registrations = [];
  register_types-eq = add_entries-eq [];
  crypto_registrations = (7, "tendermint/PubKeySecp256k1") ∷ [];
  register_crypto-eq = add_entries-eq ((7, "tendermint/PubKeySecp256k1") ∷ []);
  evidences_registrations = [];
  register_evidences-eq = add_entries-eq [];
  must_marshal_json-name = λ c d w h. ap or_unregistered h;
}

test_Distinct : Distinct test_amino test_AminoLaws (all_registrations test_amino test_AminoLaws)
unfolding test_AminoLaws
test_Distinct = (
  refl,
  refl,
  (
    refl,
    refl,
    (
      refl,
      refl,
      (
        refl,
        refl,
        (
          refl,
          refl,
          (refl, refl, (refl, refl, (refl, refl, (refl, refl, (refl, refl, (refl, refl, tt)))))),
        ),
      ),
    ),
  ),
)

make_codec_sound_example :
    (c : Entries) × (make_codec test_amino ≡ ok c)
    × ((type_of c "wasm/MsgExecuteContract" ≡ some 3)
        × (name_of c 3 ≡ some "wasm/MsgExecuteContract")
        × (type_of c "bank/MsgSend" ≡ some 11)
        × (name_of c 12 ≡ none)
        × (is_ok (add_entry 12 "wasm/MsgExecuteContract" c).0 ≡ false))
unfolding test_AminoLaws
make_codec_sound_example =
    make_codec_sound test_amino test_AminoLaws 12 "bank/MsgSend" test_Distinct

-- An execution message without coins.
abbrev test_msg : MsgExecuteContract test_kinds
test_msg = record { sender = 1 ∷ []; contract = 2 ∷ []; execute_msg = "{}"; coins = [] }

get_sign_bytes-codec_example :
    (c : Entries) × (make_codec test_amino ≡ ok c)
    × (get_sign_bytes test_amino test_msg
        ≡ and_then (or_unregistered (name_of c 3)) (λ text. ok text))
unfolding test_AminoLaws
get_sign_bytes-codec_example = get_sign_bytes-codec test_amino test_AminoLaws test_msg test_Distinct

-- It is the name of the message in this instance.
sign_bytes_value : get_sign_bytes test_amino test_msg ≡ ok "wasm/MsgExecuteContract"
unfolding get_sign_bytes
sign_bytes_value = refl

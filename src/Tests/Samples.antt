-- ===== src/Tests/Samples.antt =====
-- A concrete host and the samples that the tests share. An address and a key are their texts, and a
-- Micheline value is a tree.
use x4c.Base.{
  ℕ, String, ◌<>◌, ◌≡◌, refl, ap, Bool, true, false, List, [], ◌∷◌, none, some, Outcome, ok, err,
  Error, errorf, url_error, Action, suc,
}
use x4c.Base.Int.{ℤ, pos}
use x4c.Base.Text.{to_bytes, strip_prefix}
use x4c.Host.{Host, OpCode, d_pair}
use x4c.Tzclient.{Rpc}
use x4c.Contracts.Michelson.{Michelson}

mutual
  pub data Prim : Type 0 where
    leaf_string : String → Prim
    leaf_bytes : List ℕ → Prim
    leaf_int : ℤ → Prim
    pair_of : Prim → Prim → Prim
    seq_of : Prims → Prim
    code_of : OpCode → Prims → Prim

  pub data Prims : Type 0 where
    no_prims : Prims
    more : Prim → Prims → Prims

abbrev pub to_prims : List Prim → Prims
to_prims [] = no_prims
to_prims (p ∷ ps) = more p (to_prims ps)

abbrev pub from_prims : Prims → List Prim
from_prims no_prims = []
from_prims (more p ps) = p ∷ from_prims ps

pub from_prims-to_prims : (ps : List Prim) → from_prims (to_prims ps) ≡ ps
from_prims-to_prims [] = refl
from_prims-to_prims (p ∷ ps) = ap (λ qs. p ∷ qs) (from_prims-to_prims ps)

abbrev pub starts : String → String → Bool
starts prefix s = elim (strip_prefix prefix s) [ none ↦ false | some _ ↦ true ]

abbrev pub packed_text : Prim → List ℕ
packed_text (leaf_string s) = to_bytes s
packed_text _ = []

abbrev pub text_of : Prim → String
text_of (leaf_string s) = s
text_of _ = "text"

abbrev pub host : Host
host = record {
  Address = String;
  no_address = "";
  parse_address = λ s. ok s;
  address_string = λ a. a;
  is_ed25519 = starts "tz";
  is_contract = starts "KT";
  PrivateKey = String;
  parse_private_key = λ s. ok s;
  key_address = λ k. k;
  Prim = Prim;
  new_string = leaf_string;
  new_bytes = leaf_bytes;
  new_nat = leaf_int;
  new_pair = pair_of;
  new_seq = λ ps. seq_of (to_prims ps);
  new_code = λ c ps. code_of c (to_prims ps);
  sequence = λ ps. seq_of (to_prims ps);
  binary = λ c ps. code_of c (to_prims ps);
  pack = packed_text;
  unpack = λ p. ok p;
  prim_string = text_of;
  Url = String;
  parse_url = λ s. ok s;
  resolve = λ base rel. base <> rel;
  is_time = λ s. true;
}

abbrev pub wrong : Error
wrong = errorf "wrong type"

abbrev pub as_string_of : Prim → Outcome Error String
as_string_of (leaf_string s) = ok s
as_string_of _ = err wrong

abbrev pub as_bytes_of : Prim → Outcome Error (List ℕ)
as_bytes_of (leaf_bytes b) = ok b
as_bytes_of _ = err wrong

abbrev pub as_nat_of : Prim → Outcome Error ℕ
as_nat_of (leaf_int (pos n)) = ok n
as_nat_of _ = err wrong

abbrev pub as_pair_of : Prim → Outcome Error (Prim × Prim)
as_pair_of (pair_of p q) = ok (p, q)
as_pair_of (code_of d_pair (more p (more q (more r no_prims)))) = ok (p, pair_of q r)
as_pair_of _ = err wrong

abbrev pub as_seq_of : Prim → Outcome Error (List Prim)
as_seq_of (seq_of ps) = ok (from_prims ps)
as_seq_of _ = err wrong

abbrev pub as_code_of : Prim → Outcome Error (OpCode × List Prim)
as_code_of (code_of c ps) = ok (c, from_prims ps)
as_code_of _ = err wrong

abbrev pub michelson : Michelson host
michelson = record {
  as_string = as_string_of;
  as_bytes = as_bytes_of;
  as_nat = as_nat_of;
  as_pair = as_pair_of;
  as_seq = as_seq_of;
  as_code = as_code_of;
  as_string-new_string = λ s. refl;
  as_bytes-new_bytes = λ b. refl;
  as_nat-new_nat = λ n. refl;
  as_nat-new_nat_neg = λ n. (wrong, refl);
  as_pair-new_pair = λ p q. refl;
  as_pair-new_code = λ p q r. (pair_of q r, refl, refl);
  as_seq-new_seq = λ ps. ap ok (from_prims-to_prims ps);
  as_seq-sequence = λ ps. ap ok (from_prims-to_prims ps);
  as_code-new_code = λ c ps. ap (λ qs. ok (c, qs)) (from_prims-to_prims ps);
  as_code-binary = λ c ps. ap (λ qs. ok (c, qs)) (from_prims-to_prims ps);
}

-- A chain whose state counts the requests, and that never answers.
abbrev pub unreachable : Error
unreachable = record { trace = "no route" ∷ []; cause = url_error }

abbrev pub count_one : {A : Type 0} → Action ℕ Error A
count_one s = (err unreachable, suc s)

abbrev pub rpc : Rpc host ℕ
rpc = record {
  new_client = λ url. ok tt;
  init_and_listen = λ s. s;
  new_remote = λ url. ok tt;
  send = λ g source target p s. count_one s;
  Code = String;
  unmarshal_code = λ bytes. ok "code";
  deploy = λ key code storage s. count_one s;
  sleep = λ s. s;
}

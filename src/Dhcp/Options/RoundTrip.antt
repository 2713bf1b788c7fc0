-- ===== src/Dhcp/Options/RoundTrip.antt =====
-- Parsing the options field gives back the map that was serialised.
use mathlib.Core.List.{append_assoc, append-nil}
use native.Mathlib.Nat.{mod-eq_of_lt}
use mydhcp.Common.{
  ℕ, zero, suc, ◌+◌, ◌%◌, ◌≤◌, ◌<◌, ◌≡◌, ◌≢◌, refl, ap, sym, ◌∙◌, List, [], ◌∷◌, ◌++◌, none, arith,
  nat_eq, length, take, drop, length-append, length-drop, take_of_length-append,
  drop_of_length-append, Result, ok, err,
}
use mydhcp.Common.Maps.{lookup, insert}
use mydhcp.Dhcp.Options.{
  Options, ParseError, stuck, opt_end, parse_value, parse_loop, parse_options, serialize_entries,
}

-- Options that the wire format can carry: each code occurs once and is no padding or end, each
-- value fits a length byte.
abbrev pub Encodable : Options → Type 0
Encodable [] = Unit {0}
Encodable ((code, val) ∷ opts) =
    (lookup code opts ≡ none) × (0 < code) × (code < 255) × (length val < 256) × Encodable opts

-- None of the codes is in the map.
abbrev Fresh : Options → Options → Type 0
Fresh [] acc = Unit {0}
Fresh ((code, val) ∷ opts) acc = (lookup code acc ≡ none) × Fresh opts acc

insert_absent :
    (k : ℕ) (v : List ℕ) (m : Options) → lookup k m ≡ none → insert k v m ≡ m ++ (k, v) ∷ []
unfolding lookup insert
insert_absent k v [] h = refl
insert_absent k v ((j, w) ∷ m) h = ground (arith, insert_absent k v m)

lookup-append_one :
    (j k : ℕ) (v : List ℕ) (m : Options)
    → lookup j m ≡ none
    → k ≢ j
    → lookup j (m ++ (k, v) ∷ []) ≡ none
unfolding lookup
lookup-append_one j k v [] h apart = ground arith
lookup-append_one j k v ((i, w) ∷ m) h apart = ground (arith, lookup-append_one j k v m)

Fresh-append :
    (opts acc : Options) (code : ℕ) (val : List ℕ)
    → lookup code opts ≡ none
    → Fresh opts acc
    → Fresh opts (acc ++ (code, val) ∷ [])
unfolding lookup
Fresh-append [] acc code val h f = tt
Fresh-append ((k, v) ∷ opts) acc code val h f = (
  lookup-append_one k code val acc f.0 (ground arith),
  Fresh-append opts acc code val (ground arith) f.1,
)

parse_value_entry :
    (more : List ℕ → Options → Result ParseError Options)
    → (code : ℕ) (val tail : List ℕ) (acc : Options) → length val < 256
    → parse_value more code (length val % 256 ∷ (val ++ tail)) acc ≡ more tail (insert code val acc)
unfolding parse_value
parse_value_entry more code val tail acc h = ground (
  arith,
  length-append val tail,
  ap (λ (n : ℕ). take n (val ++ tail)) (mod-eq_of_lt h),
  ap (λ (n : ℕ). drop n (val ++ tail)) (mod-eq_of_lt h),
  take_of_length-append (length val) val tail refl,
  drop_of_length-append (length val) val tail refl,
  mod-eq_of_lt h,
)

parse_loop_step :
    (fuel code : ℕ) (rest : List ℕ) (acc : Options)
    → 0 < code
    → code < 255
    → parse_loop (suc fuel) (code ∷ rest) acc ≡ parse_value (parse_loop fuel) code rest acc
unfolding parse_loop
parse_loop_step fuel code rest acc low high = ground arith

parse_loop_end :
    (fuel : ℕ) (rest : List ℕ) (acc : Options) → parse_loop (suc fuel) (opt_end ∷ rest) acc ≡ ok acc
unfolding parse_loop
parse_loop_end fuel rest acc = refl

parse_loop-serialize :
    (opts acc : Options) (rest : List ℕ) (fuel : ℕ)
    → Encodable opts
    → Fresh opts acc
    → length (serialize_entries opts ++ opt_end ∷ rest) ≤ fuel
    → parse_loop fuel (serialize_entries opts ++ opt_end ∷ rest) acc ≡ ok (acc ++ opts)
unfolding serialize_entries
parse_loop-serialize [] acc rest zero enc fresh h = absurd (omega arith)
parse_loop-serialize [] acc rest (suc fuel) enc fresh h =
    parse_loop_end fuel rest acc ∙ ap ok (sym (append-nil acc))
parse_loop-serialize ((code, val) ∷ opts) acc rest zero enc fresh h = absurd (omega arith)
parse_loop-serialize ((code, val) ∷ opts) acc rest (suc fuel) enc fresh h =
    let tail = serialize_entries opts ++ opt_end ∷ rest in
    let regroup : (val ++ serialize_entries opts) ++ opt_end ∷ rest ≡ val ++ tail =
      append_assoc val (serialize_entries opts) (opt_end ∷ rest) in
    let long : length (val ++ tail) ≡ length val + length tail = length-append val tail in
    let later =
      parse_loop-serialize opts (acc ++ (code, val) ∷ []) rest fuel enc.4
        (Fresh-append opts acc code val enc.0 fresh.1) (omega (arith, ap length regroup)) in
    let next = insert_absent code val acc fresh.0 in
    let entry = parse_value_entry (parse_loop fuel) code val tail acc enc.3 in
    rw regroup (
      parse_loop_step fuel code (length val % 256 ∷ (val ++ tail)) acc enc.1 enc.2
      ∙ entry
      ∙ ap (parse_loop fuel tail) next
      ∙ later
      ∙ ap ok (append_assoc acc ((code, val) ∷ []) opts))

Fresh-nil : (opts : Options) → Fresh opts []
unfolding lookup
Fresh-nil [] = tt
Fresh-nil ((k, v) ∷ opts) = (refl, Fresh-nil opts)

-- Parsing serialised options that fit, with anything behind the end option, gives the same options
-- back.
pub parse_options-serialize :
    (opts : Options) (rest : List ℕ)
    → Encodable opts
    → parse_options (serialize_entries opts ++ opt_end ∷ rest) ≡ ok opts
unfolding parse_options
parse_options-serialize opts rest enc =
    parse_loop-serialize opts [] rest (length (serialize_entries opts ++ opt_end ∷ rest)) enc
      (Fresh-nil opts) (omega arith)

parse_value-ne-stuck :
    (more : List ℕ → Options → Result ParseError Options) (code : ℕ) (rest : List ℕ) (acc : Options)
    → ((tail : List ℕ) (opts : Options) → length tail ≤ length rest → more tail opts ≢ err stuck)
    → parse_value more code rest acc ≢ err stuck
unfolding parse_value
parse_value-ne-stuck more code [] acc ends = ground arith
parse_value-ne-stuck more code (l ∷ rest) acc ends =
    ground (
      arith,
      ends (drop l rest) (insert code (take l rest) acc) (omega (arith, length-drop l rest)),
    )

parse_loop-ne-stuck :
    (fuel : ℕ) (bytes : List ℕ) (acc : Options)
    → length bytes ≤ fuel
    → parse_loop fuel bytes acc ≢ err stuck
unfolding parse_loop
parse_loop-ne-stuck zero [] acc h = ground arith
parse_loop-ne-stuck (suc fuel) [] acc h = ground arith
parse_loop-ne-stuck zero (b ∷ bs) acc h = absurd (omega arith)
parse_loop-ne-stuck (suc fuel) (b ∷ bs) acc h = ground (
  arith,
  parse_loop-ne-stuck fuel bs acc,
  parse_value-ne-stuck (parse_loop fuel) b bs acc
      (λ tail opts k. parse_loop-ne-stuck fuel tail opts (omega arith)),
)

-- The options parser never runs out of its fuel, the number of the bytes.
pub parse_options-ne-stuck : (bytes : List ℕ) → parse_options bytes ≢ err stuck
unfolding parse_options
parse_options-ne-stuck bytes = parse_loop-ne-stuck (length bytes) bytes [] (omega arith)

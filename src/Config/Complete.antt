-- ===== src/Config/Complete.antt =====
-- What a configuration that passes the check is worth.
use mydhcp.Common.{
  ℕ, ◌+◌, ◌≡◌, ◌≢◌, refl, sym, ap, subst, ◌∙◌, List, [], ◌∷◌, ◌=?◌, text_eq, arith, Result, ok, err,
  Result-cases, inl, inr, if_neg,
}
use mydhcp.Config.{
  SubnetConfig, Error, server_ip_required, or_default, with_defaults, check_subnet,
  validate_subnets, validate,
}

-- Every text that the server needs is there, and no duration is 0.
pub record IsComplete (s : SubnetConfig) : Type 0 where
  pub named : s.name ≢ []
  pub placed : s.network ≢ []
  pub starts : s.range_start ≢ []
  pub ends : s.range_end ≢ []
  pub leases : s.lease_time ≢ 0
  pub offers : s.offer_timeout ≢ 0
  pub cools : s.decline_cooldown ≢ 0
  pub reaps : s.lease_reaper_interval ≢ 0

abbrev pub AreComplete : List SubnetConfig → Type 0
AreComplete [] = Unit {0}
AreComplete (s ∷ ss) = IsComplete s × AreComplete ss

checked-IsComplete :
    (i : ℕ) (s : SubnetConfig) → check_subnet i s ≡ ok tt → IsComplete (with_defaults s)
unfolding check_subnet with_defaults or_default
checked-IsComplete i s h = record {
  named = ground arith;
  placed = ground arith;
  starts = ground arith;
  ends = ground arith;
  leases = ground arith;
  offers = ground arith;
  cools = ground arith;
  reaps = ground arith;
}

accepted :
    (i : ℕ) (s : SubnetConfig) (ss : List SubnetConfig)
    → check_subnet i s ≡ ok tt
    → validate_subnets i (s ∷ ss)
      ≡ (with_defaults s ∷ (validate_subnets (i + 1) ss).0, (validate_subnets (i + 1) ss).1)
unfolding validate_subnets
accepted i s ss h = ground (arith, h)

subnets-AreComplete :
    (i : ℕ) (ss : List SubnetConfig)
    → (validate_subnets i ss).1 ≡ ok tt
    → AreComplete (validate_subnets i ss).0
unfolding validate_subnets
subnets-AreComplete i [] h = tt
subnets-AreComplete i (s ∷ ss) h = elim (Result-cases (check_subnet i s)) [
  | inr (e, f) ↦ absurd (ground (arith, f))
  | inl (u, f) ↦
      let step = accepted i s ss f in
      let later : (validate_subnets (i + 1) ss).1 ≡ ok tt =
        ap (λ (r : List SubnetConfig × Result Error (Unit {0})). r.1) (sym step) ∙ h in
      subst (λ (r : List SubnetConfig × Result Error (Unit {0})). AreComplete r.0) (sym step)
        (checked-IsComplete i s f, subnets-AreComplete (i + 1) ss later)
]

validate_subnets_complete :
    (i : ℕ) (ss : List SubnetConfig) → AreComplete ss → validate_subnets i ss ≡ (ss, ok tt)
unfolding validate_subnets check_subnet with_defaults or_default
validate_subnets_complete i [] c = refl
validate_subnets_complete i (s ∷ ss) (c, cs) =
    let again = validate_subnets_complete (i + 1) ss cs in
    ground (arith, again, c.named, c.placed, c.starts, c.ends, c.leases, c.offers, c.cools, c.reaps)

-- When the check of a configuration succeeds, every subnet that it leaves has a name, a network,
-- both ends of the range and no duration of 0, and checking the result again succeeds and changes
-- nothing.
pub validate-AreComplete :
    (server_ip : List ℕ) (ss : List SubnetConfig)
    → (validate server_ip ss).1 ≡ ok tt
    → AreComplete (validate server_ip ss).0
      × (validate server_ip (validate server_ip ss).0 ≡ validate server_ip ss)
validate-AreComplete server_ip ss h = elim (server_ip =? []) [
  | yes e ↦ absurd (unfold validate in ground (arith, e))
  | no given ↦
      let on : (xs : List SubnetConfig) → validate server_ip xs ≡ validate_subnets 0 xs = λ xs.
        unfold validate in if_neg _ given (xs, err server_ip_required) (validate_subnets 0 xs) in
      let done : (validate_subnets 0 ss).1 ≡ ok tt =
        ap (λ (r : List SubnetConfig × Result Error (Unit {0})). r.1) (sym (on ss)) ∙ h in
      let complete = subnets-AreComplete 0 ss done in
      rw (on ss) (
        complete,
        on (validate_subnets 0 ss).0
            ∙ validate_subnets_complete 0 (validate_subnets 0 ss).0 complete
            ∙ sym (λ i. ((validate_subnets 0 ss).0, done i)),
      )
]

-- ===== src/Locks/Invariant.antt =====
-- The invariant of the CPUs and their spin locks.
use project_priv.Prelude.{
  ℕ, ◌+◌, ◌<◌, ◌≡◌, ◌≢◌, sym, ap, ◌∙◌, subst, Option, none, some, Bool, false, update, update_self,
  update_ne, arith, ℕ_discrete, eq→==, ne→==,
}
use project_priv.Locks.{mark, Lock, Cpu, Machine, holding}
use project_priv.Locks.Held.{held}

unfoldable pub spinning : Option ℕ → ℕ
spinning none = 0
spinning (some l) = 1

-- Each CPU has pushed once for each lock that it holds, and once for the one on which it spins.
pub record IsSound (n : ℕ) (m : Machine) : Type 0 where
  pub depth : (c : ℕ) → (m.cpus c).noff ≡ held n c m.locks + spinning (m.cpus c).spins
  pub quiet : (c : ℕ) → 0 < (m.cpus c).noff → (m.cpus c).intr ≡ false
  pub inside : (c l : ℕ) → (m.cpus c).spins ≡ some l → l < n
  pub owns : (c l : ℕ) → m.acquired c l ≡ holding c (m.locks l)

-- A lock and its mark change together.
pub mark-owns :
    (f : (c l : ℕ) → Bool) (locks : ℕ → Lock) (c l : ℕ) (b : Bool) (x : Lock)
    → ((d k : ℕ) → f d k ≡ holding d (locks k))
    → b ≡ holding c x
    → ((d : ℕ) → d ≢ c → holding d (locks l) ≡ holding d x)
    → (d k : ℕ) → mark c l b f d k ≡ holding d (update locks l x k)
unfolding mark
mark-owns f locks c l b x owns own others d k = elim (ℕ_discrete k l) [
  | no n ↦
      rw (ne→== k l n)
        (ground arith ∙ owns d k ∙ ap (λ (y : Lock). holding d y) (sym (update_ne locks l x k n)))
  | yes e ↦
      let new : holding d x ≡ holding d (update locks l x k) =
        ap (λ (y : Lock). holding d y) (sym (ap (update locks l x) e ∙ update_self locks l x)) in
      elim (ℕ_discrete d c) [
        | yes q ↦ rw (eq→== k l e, eq→== d c q) (own ∙ ap (λ (y : ℕ). holding y x) (sym q) ∙ new)
        | no a ↦
            rw (ne→== d c a) (owns d k ∙ ap (λ (y : ℕ). holding d (locks y)) e ∙ others d a ∙ new)
      ]
]

-- One CPU and the locks that it holds change.
pub changed-IsSound :
    (n : ℕ) (m : Machine) (c : ℕ) (x : Cpu) (locks : ℕ → Lock) (acquired : (c l : ℕ) → Bool)
    → IsSound n m
    → ((d : ℕ) → d ≢ c → held n d locks ≡ held n d m.locks)
    → x.noff ≡ held n c locks + spinning x.spins
    → (0 < x.noff → x.intr ≡ false)
    → ((l : ℕ) → x.spins ≡ some l → l < n)
    → ((d l : ℕ) → acquired d l ≡ holding d (locks l))
    → IsSound n (record m { locks = locks; cpus = update m.cpus c x; acquired = acquired })
changed-IsSound n m c x locks acquired v same depth quiet inside owns =
    let self : update m.cpus c x c ≡ x = update_self m.cpus c x in
    let at : (d : ℕ) → d ≡ c → update m.cpus c x d ≡ x = λ d e. ap (update m.cpus c x) e ∙ self in
    let other : (d : ℕ) → d ≢ c → update m.cpus c x d ≡ m.cpus d = update_ne m.cpus c x in
    record {
      depth = λ d. elim (ℕ_discrete d c) [
        | yes e ↦
            ap (λ (p : Cpu). p.noff) (at d e)
            ∙ depth
            ∙ ap (λ (y : ℕ). held n y locks + spinning x.spins) (sym e)
            ∙ ap (λ (p : Cpu). held n d locks + spinning p.spins) (sym (at d e))
        | no a ↦
            ap (λ (p : Cpu). p.noff) (other d a)
            ∙ v.depth d
            ∙ ap (λ (y : ℕ). y + spinning (m.cpus d).spins) (sym (same d a))
            ∙ ap (λ (p : Cpu). held n d locks + spinning p.spins) (sym (other d a))
      ];
      quiet = λ d h. elim (ℕ_discrete d c) [
        | yes e ↦
            ap (λ (p : Cpu). p.intr) (at d e) ∙ quiet (subst (λ (p : Cpu). 0 < p.noff) (at d e) h)
        | no a ↦
            ap (λ (p : Cpu). p.intr) (other d a)
            ∙ v.quiet d (subst (λ (p : Cpu). 0 < p.noff) (other d a) h)
      ];
      inside = λ d l h. elim (ℕ_discrete d c) [
        | yes e ↦ inside l (ap (λ (p : Cpu). p.spins) (sym (at d e)) ∙ h)
        | no a ↦ v.inside d l (ap (λ (p : Cpu). p.spins) (sym (other d a)) ∙ h)
      ];
      owns = owns;
    }

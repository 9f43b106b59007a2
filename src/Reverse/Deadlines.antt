-- ===== src/Reverse/Deadlines.antt =====
-- The deadlines of contexts.
use grpc_mesh_server.Prelude.{
  ℕ, ◌+◌, ◌*◌, ◌≤◌, ◌<◌, ◌≡◌, refl, sym, ◌⊎◌, inl, inr, Option, none, some, ltb, arith, Bool-cases,
}
use mathlib.Core.Path.{subst}
use grpc_mesh_server.Reverse.{Context, with_timeout, Gateway, ensure_deadline}

-- The context ends at `t` or before.
pub record Within (ctx : Context) (t : ℕ) : Type 0 where
  pub at : ℕ
  pub ends : ctx.deadline ≡ some at
  pub early : at ≤ t

-- `child` ends when its parent does and at `t`, and at the earlier of the two.
pub record IsEarlier (ctx child : Context) (t : ℕ) : Type 0 where
  pub inherited : (d : ℕ) → ctx.deadline ≡ some d → Within child d
  pub bounded : Within child t
  pub attained : (child.deadline ≡ ctx.deadline) ⊎ (child.deadline ≡ some t)

pub with_timeout-IsEarlier :
    (ctx : Context) (now timeout : ℕ) → IsEarlier ctx (with_timeout ctx now timeout) (now + timeout)
unfolding with_timeout
with_timeout-IsEarlier ctx now timeout = go ctx.deadline
  where
    go :
        (o : Option ℕ)
        → IsEarlier
            (record { deadline = o })
            (with_timeout (record { deadline = o }) now timeout)
            (now + timeout)
    go none = record {
      inherited = λ d q. ground (arith, q);
      bounded = record { at = now + timeout; ends = refl; early = omega arith };
      attained = inr refl;
    }
    go (some d) = elim (Bool-cases (ltb d (now + timeout))) [
      | inl t ↦ record {
        inherited = λ e q. record { at = d; ends = ground (arith, t); early = ground (arith, q) };
        bounded = record { at = d; ends = ground (arith, t); early = ground (arith, t) };
        attained = inl (ground (arith, t));
      }
      | inr f ↦ record {
        inherited = λ e q. record {
          at = now + timeout;
          ends = ground (arith, f);
          early = ground (arith, f, q);
        };
        bounded = record { at = now + timeout; ends = ground (arith, f); early = omega arith };
        attained = inr (ground (arith, f));
      }
    ]

-- The deadline under which a call runs is never later than that of the caller's context, than the
-- request's own timeout when it has one, and than the gateway's timeout when the request has none:
-- it is the earliest of those that apply, and neither timeout replaces an earlier deadline of the
-- caller. With no timeout at all, the caller's context is used as it is.
pub deadline_earliest :
    (g : Gateway) (ctx : Context) (timeout_ms now : ℕ)
    → (0 < timeout_ms
        → IsEarlier ctx (ensure_deadline g ctx timeout_ms now) (now + timeout_ms * 1_000_000))
      × (timeout_ms ≡ 0
          → 0 < g.timeout
          → IsEarlier ctx (ensure_deadline g ctx timeout_ms now) (now + g.timeout))
      × (timeout_ms ≡ 0 → g.timeout ≡ 0 → ensure_deadline g ctx timeout_ms now ≡ ctx)
unfolding ensure_deadline
deadline_earliest g ctx timeout_ms now = (
  λ p.
      subst (λ x. IsEarlier ctx x (now + timeout_ms * 1_000_000)) (sym (ground (arith, p)))
        (with_timeout-IsEarlier ctx now (timeout_ms * 1_000_000)),
  λ z p.
      subst (λ x. IsEarlier ctx x (now + g.timeout)) (sym (ground (arith, z, p)))
        (with_timeout-IsEarlier ctx now g.timeout),
  λ z y. ground arith,
)

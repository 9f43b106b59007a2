-- ===== src/Meshlib/Owning.antt =====
-- Every C string of the library has at most one owner: a string handle or the error of a thread.
use grpc_mesh_server.Prelude.{
  ℕ, ◌≡◌, ◌≢◌, ◌↔◌, refl, ◌∙◌, inl, inr, Bool, true, false, Option, none, some, arith, Str, ◌==◌,
  ==_iff, if◌then◌else◌, Option-cases, Bool-cases,
}

pub data Owner : Type 0 where
  of_string of_thread : ℕ → Owner

abbrev pub same : Owner → Owner → Bool
same (of_string a) (of_string b) = a == b
same (of_thread a) (of_thread b) = a == b
same _ _ = false

pub same_iff : (o w : Owner) → (same o w ≡ true) ↔ (o ≡ w)
same_iff (of_string a) (of_string b) = ground (arith, ==_iff a b)
same_iff (of_thread a) (of_thread b) = ground (arith, ==_iff a b)
same_iff (of_string a) (of_thread b) = ground arith
same_iff (of_thread a) (of_string b) = ground arith

-- The heap and the pointers, as functions.
abbrev pub Heap : Type 0
Heap = ℕ → Option Str

abbrev pub Pointers : Type 0
Pointers = Owner → Option ℕ

abbrev pub text_at : Heap → Option ℕ → Option Str
text_at h none = none
text_at h (some a) = h a

-- A pointer is to a string that is allocated, and no two owners share one.
pub record IsOwned (h : Heap) (p : Pointers) : Type 0 where
  pub allocated : (o : Owner) (a : ℕ) → p o ≡ some a → (s : Str) × (h a ≡ some s)
  pub apart : (o w : Owner) (a : ℕ) → p o ≡ some a → p w ≡ some a → o ≡ w

-- A step that gives `w` the text `t`, and every other owner what it had.
pub record Gives (h h' : Heap) (p p' : Pointers) (w : Owner) (t : Option Str) : Type 0 where
  pub owned : IsOwned h' p'
  pub texts : (o : Owner) → text_at h' (p' o) ≡ (if same w o then t else text_at h (p o))

module _ (h h' : Heap) (p : Pointers) (a : ℕ) (s : Str) where
  -- A new string that nobody points to.
  pub allocate :
      h a ≡ none
      → ((b : ℕ) → h' b ≡ (if a == b then some s else h b))
      → IsOwned h p
      → IsOwned h' p
        × ((o : Owner) → p o ≢ some a)
        × ((o : Owner) → text_at h' (p o) ≡ text_at h (p o))
  allocate fresh e i = (
    record {
      allocated =
          λ o b q. let (t, r) = i.allocated o b q in (t, ground (arith, e b, r, fresh, ==_iff a b));
      apart = i.apart;
    },
    λ o q. let (t, r) = i.allocated o a q in ground (arith, r, fresh),
    λ o. go o (p o) refl,
  )
    where
      go : (o : Owner) (x : Option ℕ) → p o ≡ x → text_at h' x ≡ text_at h x
      go o none q = refl
      go o (some b) q = let (t, r) = i.allocated o b q in ground (arith, e b, r, fresh, ==_iff a b)

module _ (h : Heap) (p p' : Pointers) (w : Owner) (a : ℕ) (s : Str) where
  -- An owner takes a string that nobody points to.
  pub take_over :
      h a ≡ some s
      → ((o : Owner) → p o ≢ some a)
      → ((o : Owner) → p' o ≡ (if same w o then some a else p o))
      → IsOwned h p
      → Gives h h p p' w (some s)
  take_over there free e i = record {
    owned = record {
      allocated = λ o b q. elim (Bool-cases (same w o)) [
        | inl t ↦ (s, ground (arith, q, e o, t, there))
        | inr f ↦ i.allocated o b (ground (arith, q, e o, f))
      ];
      apart = λ o v b q r. elim (Bool-cases (same w o)) [
        | inl t ↦ elim (Bool-cases (same w v)) [
          | inl u ↦ ground (arith, same_iff w o, same_iff w v, t, u)
          | inr u ↦ absurd (free v (ground (arith, q, r, e o, e v, t, u)))
        ]
        | inr f ↦ elim (Bool-cases (same w v)) [
          | inl u ↦ absurd (free o (ground (arith, q, r, e o, e v, f, u)))
          | inr u ↦ i.apart o v b (ground (arith, q, e o, f)) (ground (arith, r, e v, u))
        ]
      ];
    };
    texts =
        λ o. elim (Bool-cases (same w o)) [ inl t ↦ rw (e o, t) there | inr f ↦ rw (e o, f) refl ];
  }

module _ (h h' : Heap) (p p' : Pointers) (w : Owner) (a : ℕ) where
  -- An owner gives up its string, which is freed.
  pub give_up :
      p w ≡ some a
      → ((b : ℕ) → h' b ≡ (if a == b then none else h b))
      → ((o : Owner) → p' o ≡ (if same w o then none else p o))
      → IsOwned h p
      → Gives h h' p p' w none
  give_up had e f i = record {
    owned = record {
      allocated = λ o b q. elim (Bool-cases (same w o)) [
        | inl t ↦ absurd (ground (arith, q, f o, t))
        | inr u ↦ (let r = kept o b q in let (s, v) = i.allocated o b r in (s, other o b r u ∙ v))
      ];
      apart = λ o v b q r. i.apart o v b (kept o b q) (kept v b r);
    };
    texts = λ o. elim (Bool-cases (same w o)) [
      | inl t ↦ rw (f o, t) refl
      | inr u ↦ elim (Option-cases (p o)) [
        | inl n ↦ rw (f o, u, n) refl
        | inr (b, r) ↦ rw (f o, u, r) (other o b r u)
      ]
    ];
  }
    where
      kept : (o : Owner) (b : ℕ) → p' o ≡ some b → p o ≡ some b
      kept o b q = elim (Bool-cases (same w o)) [
        | inl t ↦ absurd (ground (arith, q, f o, t))
        | inr u ↦ ground (arith, q, f o, u)
      ]

      other : (o : Owner) (b : ℕ) → p o ≡ some b → same w o ≡ false → h' b ≡ h b
      other o b r u = elim (Bool-cases (a == b)) [
        | inl t ↦
            absurd (
              ground (arith, i.apart w o b (ground (arith, had, t, ==_iff a b)) r, same_iff w o, u))
        | inr t ↦ ground (arith, e b, t)
      ]

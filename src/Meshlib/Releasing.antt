-- ===== src/Meshlib/Releasing.antt =====
-- The release of a string handle.
use grpc_mesh_server.Prelude.{
  ℕ, ◌≡◌, refl, sym, ◌∙◌, ap, Option, none, some, arith, Str, ==_iff, if◌then◌else◌, nat_eq,
}
use mathlib.Core.Path.{subst}
use grpc_mesh_server.Map.{lookup, delete, lookup-delete}
use grpc_mesh_server.Meshlib.Store.{Strings, free, str_release}
use grpc_mesh_server.Meshlib.Table.{Table, releases, step}
use grpc_mesh_server.Meshlib.Owning.{Owner, of_string, of_thread, same, text_at, give_up}
use grpc_mesh_server.Meshlib.Holding.{
  heap_of, pointers_in, pointers_of, IsHeld, string_gone, released_promise,
}

-- A handle that is not live: the release changes no pointer.
dead_release :
    (st : Strings) (t : Table) (id : ℕ)
    → IsHeld st t
    → lookup id st.live_strs ≡ none
    → IsHeld (record st { live_strs = delete id st.live_strs }) (step t (releases id)).0
dead_release st t id i n =
    let p' = pointers_in (delete id st.live_strs) st.errors in
    let e : (w : Owner) → p' w ≡ pointers_of st w = λ w. kept w in
    record {
      sound = i.sound;
      owned = record {
        allocated = λ w a q. i.owned.allocated w a (sym (e w) ∙ q);
        apart = λ w v a q r. i.owned.apart w v a (sym (e w) ∙ q) (sym (e v) ∙ r);
      };
      counted = i.counted;
      texts =
          λ w. ap (text_at (heap_of st)) (e w) ∙ absent w ∙ released_promise t _ id w (i.texts w);
    }
  where
    kept : (w : Owner) → pointers_in (delete id st.live_strs) st.errors w ≡ pointers_of st w
    kept (of_string j) = ground (arith, lookup-delete id j st.live_strs, n, ==_iff id j)
    kept (of_thread j) = refl

    absent :
        (w : Owner)
        → text_at (heap_of st) (pointers_of st w)
          ≡ (if same (of_string id) w then none else text_at (heap_of st) (pointers_of st w))
    absent (of_string j) = ground (arith, n, ==_iff id j)
    absent (of_thread j) = refl

pub free_there :
    (st : Strings) (a : ℕ) (s : Str)
    → lookup a st.heap ≡ some s
    → free st a ≡ record st { heap = delete a st.heap }
unfolding free
free_there st a s r = ground (arith, r)

-- A live handle: its string is freed, once.
live_release :
    (st : Strings) (t : Table) (id a : ℕ)
    → IsHeld st t
    → lookup id st.live_strs ≡ some a
    → IsHeld (free (record st { live_strs = delete id st.live_strs }) a) (step t (releases id)).0
live_release st t id a i q =
    let (s, r) = i.owned.allocated (of_string id) a q in
    let g =
      give_up (heap_of st) (λ b. lookup b (delete a st.heap)) (pointers_of st)
        (pointers_in (delete id st.live_strs) st.errors) (of_string id) a q
        (λ b. lookup-delete a b st.heap) (string_gone st.live_strs st.errors id) i.owned in
    subst (λ x. IsHeld x (step t (releases id)).0)
      (sym (free_there (record st { live_strs = delete id st.live_strs }) a s r))
      (record {
        sound = i.sound;
        owned = g.owned;
        counted = i.counted;
        texts = λ w. g.texts w ∙ released_promise t _ id w (i.texts w);
      })

pub release-IsHeld :
    (st : Strings) (t : Table) (id : ℕ)
    → IsHeld st t
    → IsHeld (str_release st id) (step t (releases id)).0
unfolding str_release
release-IsHeld st t id i = go (lookup id st.live_strs) refl
  where
    go :
        (o : Option ℕ)
        → lookup id st.live_strs ≡ o
        → IsHeld
            (elim o [
              | none ↦ record st { live_strs = delete id st.live_strs }
              | some cs ↦ free (record st { live_strs = delete id st.live_strs }) cs
            ])
            (step t (releases id)).0
    go none n = dead_release st t id i n
    go (some a) q = live_release st t id a i q

-- ===== src/Meshlib/Holding.antt =====
-- The library's variables as a heap and pointers, next to the table.
use grpc_mesh_server.Prelude.{
  ℕ, ◌+◌, ◌≡◌, refl, Bool, true, false, Option, none, some, Str, if◌then◌else◌, nat_eq,
}
use grpc_mesh_server.Map.{Map, lookup, insert, delete, lookup-insert, lookup-delete}
use grpc_mesh_server.Meshlib.Store.{Strings}
use grpc_mesh_server.Meshlib.Table.{Table, registers, releases, fails, step, at_pointer}
use grpc_mesh_server.Meshlib.Owning.{
  Owner, of_string, of_thread, same, text_at, Heap, Pointers, IsOwned,
}

abbrev pub heap_of : Strings → Heap
heap_of st a = lookup a st.heap

abbrev pub pointers_in : Map ℕ ℕ → Map ℕ ℕ → Pointers
pointers_in live errors (of_string id) = lookup id live
pointers_in live errors (of_thread t) = lookup t errors

abbrev pub pointers_of : Strings → Pointers
pointers_of st = pointers_in st.live_strs st.errors

abbrev pub promised : Table → Owner → Option Str
promised t (of_string id) = t.content id
promised t (of_thread j) = t.message j

-- The variables hold what the table says, and nothing was freed that was not allocated.
pub record IsHeld (st : Strings) (t : Table) : Type 0 where
  pub sound : st.faulted ≡ false
  pub owned : IsOwned (heap_of st) (pointers_of st)
  pub counted : st.next_str_id ≡ t.issued
  pub texts : (o : Owner) → text_at (heap_of st) (pointers_of st o) ≡ promised t o

-- A new C string stands where none is allocated.
abbrev pub IsAllocator : (Map ℕ Str → ℕ) → Type 0
IsAllocator malloc = (heap : Map ℕ Str) → lookup (malloc heap) heap ≡ none

pub at_text : (st : Strings) (x : Option ℕ) → at_pointer st x ≡ text_at (heap_of st) x
unfolding at_pointer
at_text st none = refl
at_text st (some a) = refl

-- A choice made twice.
pub again :
    {A : Type 0} (b : Bool) (x y z : A)
    → (if b then x else z) ≡ (if b then x else (if b then y else z))
again true x y z = refl
again false x y z = refl

module _ (live errors : Map ℕ ℕ) where
  pub string_set :
      (id a : ℕ) (w : Owner)
      → pointers_in (insert id a live) errors w
        ≡ (if same (of_string id) w then some a else pointers_in live errors w)
  string_set id a (of_string j) = lookup-insert id j a live
  string_set id a (of_thread j) = refl

  pub string_gone :
      (id : ℕ) (w : Owner)
      → pointers_in (delete id live) errors w
        ≡ (if same (of_string id) w then none else pointers_in live errors w)
  string_gone id (of_string j) = lookup-delete id j live
  string_gone id (of_thread j) = refl

  pub error_set :
      (t a : ℕ) (w : Owner)
      → pointers_in live (insert t a errors) w
        ≡ (if same (of_thread t) w then some a else pointers_in live errors w)
  error_set t a (of_string j) = refl
  error_set t a (of_thread j) = lookup-insert t j a errors

module _ (t : Table) (x : Option Str) where
  pub registered_promise :
      (id : ℕ) (s : Str) (w : Owner)
      → id ≡ t.issued + 1
      → x ≡ promised t w
      → (if same (of_string id) w then some s else x) ≡ promised (step t (registers s)).0 w
  registered_promise id s (of_string j) n e = rw (n, e) refl
  registered_promise id s (of_thread j) n e = e

  pub released_promise :
      (id : ℕ) (w : Owner)
      → x ≡ promised t w
      → (if same (of_string id) w then none else x) ≡ promised (step t (releases id)).0 w
  released_promise id (of_string j) e = rw e refl
  released_promise id (of_thread j) e = e

  pub failed_promise :
      (j : ℕ) (s : Str) (w : Owner)
      → x ≡ promised t w
      → (if same (of_thread j) w then some s else x) ≡ promised (step t (fails j s)).0 w
  failed_promise j s (of_string k) e = e
  failed_promise j s (of_thread k) e = rw e refl

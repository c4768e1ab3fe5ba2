-- ===== src/Base/RefCount.antt =====
-- RefCount and Ref of kwctoolkit/base/ref_count.h and ref_count.cc, on one thread. The heap is a
-- list of objects by address, of which only the word refcount_ is modelled; a deleted object is
-- `none`, and an access to it, or to no object, is `thrown`. KWC_ASSERT is off, as in a release
-- build.
pub mod Balance
pub mod Ownership
pub mod Programs
use kwctoolkit.Prelude.{
  ℕ, ◌+◌, ◌-◌, ◌*◌, ◌/◌, ◌%◌, ◌^◌, Bool, true, false, not, ◌&&◌, Option, none, some, List, [], ◌∷◌,
  ◌++◌, ltb, leb, ◌==◌, if◌then◌else◌, length, get_or, set, Outcome, returned, thrown, ◌>>=◌,
}

abbrev pub Heap : Type 0
Heap = List (Option ℕ)

abbrev pub Pointer : Type 0
Pointer = Option ℕ

-- kRefCountIncrement; the lowest bit is the payload.
abbrev pub ref_count_increment : ℕ
ref_count_increment = 2

-- RefCount(payload)
abbrev pub new_ref_count : ℕ → ℕ
new_ref_count payload = (ref_count_increment + payload) % 2 ^ 64

-- getRefCountForTesting and getRefCountPayload
abbrev pub get_ref_count : ℕ → ℕ
get_ref_count refcount = refcount / 2

abbrev pub get_ref_count_payload : ℕ → ℕ
get_ref_count_payload refcount = refcount % 2

abbrev pub cell : Heap → ℕ → Option ℕ
cell heap p = get_or heap p none

-- RefCount::reference and RefCount::release of the object at an address.
unfoldable pub reference_object : ℕ → Heap → Outcome Heap
reference_object p heap = elim (cell heap p) [
  | none ↦ thrown
  | some refcount ↦ returned (set heap p (some ((refcount + ref_count_increment) % 2 ^ 64)))
]

unfoldable pub release_object : ℕ → Heap → Outcome Heap
release_object p heap = elim (cell heap p) [
  | none ↦ thrown
  | some refcount ↦ returned (
      set heap p (
        if ltb refcount (2 * ref_count_increment)
        then none
        else some ((refcount + (2 ^ 64 - ref_count_increment)) % 2 ^ 64)))
]

-- Ref::reference and Ref::release, which test for null.
unfoldable pub reference : Pointer → Heap → Outcome Heap
unfolding reference_object
reference none heap = returned heap
reference (some p) heap = reference_object p heap

unfoldable pub release : Pointer → Heap → Outcome Heap
unfolding release_object
release none heap = returned heap
release (some p) heap = release_object p heap

-- The variables of a program: its Refs, and its plain pointers that own a reference, which are
-- those from `new`, and those from detach. A variable that is not yet constructed, or destroyed, is
-- null.
pub record Memory : Type 0 where
  pub heap : Heap
  pub refs : List Pointer
  pub owned : List Pointer

abbrev pub ref_at : ℕ → Memory → Pointer
ref_at i s = get_or s.refs i none

abbrev pub owned_at : ℕ → Memory → Pointer
owned_at k s = get_or s.owned k none

abbrev put_ref : ℕ → Pointer → Heap → Memory → Memory
put_ref i p heap s = record s { heap = heap; refs = set s.refs i p }

-- Ref(T* ptr)
unfoldable pub construct : ℕ → Pointer → Memory → Outcome Memory
unfolding reference
construct i p s = do heap ← reference p s.heap; returned (put_ref i p heap s)

-- Ref(const Ref& other)
unfoldable pub copy_construct : ℕ → ℕ → Memory → Outcome Memory
unfolding construct
copy_construct i other s = construct i (ref_at other s) s

-- operator=(const Ref& other)
unfoldable pub copy_assign : ℕ → ℕ → Memory → Outcome Memory
unfolding reference release
copy_assign i other s = elim (other == i) [
  | true ↦ returned s
  | false ↦ do
    heap1 ← reference (ref_at other s) s.heap
    heap2 ← release (ref_at i s) heap1
    returned (put_ref i (ref_at other s) heap2 s)
]

-- Ref(Ref&& other)
unfoldable pub move_construct : ℕ → ℕ → Memory → Outcome Memory
move_construct i other s =
    returned (record s { refs = set (set s.refs i (ref_at other s)) other none })

-- operator=(Ref&& other)
unfoldable pub move_assign : ℕ → ℕ → Memory → Outcome Memory
unfolding release
move_assign i other s = elim (other == i) [
  | true ↦ returned s
  | false ↦ do
    heap ← release (ref_at i s) s.heap
    returned (record s { heap = heap; refs = set (set s.refs i (ref_at other s)) other none })
]

-- ~Ref()
unfoldable pub destroy : ℕ → Memory → Outcome Memory
unfolding release
destroy i s = do heap ← release (ref_at i s) s.heap; returned (put_ref i none heap s)

-- detach(), into an owning pointer.
unfoldable pub detach : ℕ → ℕ → Memory → Outcome Memory
detach i k s = returned (record s { refs = set s.refs i none; owned = set s.owned k (ref_at i s) })

-- AcquireRef of an owning pointer, which does not test for null.
unfoldable pub acquire_ref : ℕ → ℕ → Memory → Outcome Memory
unfolding construct release_object
acquire_ref i k s = elim (owned_at k s) [
  | none ↦ thrown
  | some p ↦ do
    s1 ← construct i (some p) s
    heap ← release_object p s1.heap
    returned (record s1 { heap = heap; owned = set s1.owned k none })
]

-- new T, into an owning pointer.
unfoldable pub create : ℕ → ℕ → Memory → Outcome Memory
create k payload s = returned (record s {
  heap = s.heap ++ some (new_ref_count payload) ∷ [];
  owned = set s.owned k (some (length s.heap));
})

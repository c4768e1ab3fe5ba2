-- ===== src/Base/Result.antt =====
-- Result<T*, E> of kwctoolkit/base/result.h and result.cc: a tagged pointer. A word is the bit
-- pattern of an intptr_t; the variables of a program are the list of their words, in the order of
-- their construction. `asserts` is BUILD_FLAG(ENABLE_ASSERTS): with it, a failed KWC_ASSERT is
-- `thrown`, without it nothing happens.
pub mod Abstract
pub mod Alignment
pub mod Release
pub mod Ledger
pub mod Values
pub mod Ownership
pub mod Refinement
use kwctoolkit.Prelude.{
  ℕ, ◌+◌, ◌-◌, ◌*◌, ◌/◌, ◌%◌, max, Bool, not, ◌&&◌, List, [], ◌∷◌, ◌++◌, ◌==◌, if◌then◌else◌,
  get_or, set, Outcome, returned, thrown, exhausted, ◌>>=◌,
}

-- enum Payload and kEmptyPayload
abbrev pub payload_success : ℕ
payload_success = 0

abbrev pub payload_error : ℕ
payload_error = 1

abbrev pub payload_empty : ℕ
payload_empty = 2

-- `payload | type` of a type of two bits, and `payload ^ 1`.
abbrev pub or_type : ℕ → ℕ → ℕ
or_type payload type =
    payload / 4 * 4 + max (payload / 2 % 2) (type / 2 % 2) * 2 + max (payload % 2) (type % 2)

abbrev pub flip_lowest : ℕ → ℕ
flip_lowest payload = payload / 2 * 2 + (1 - payload % 2)

abbrev pub get_payload : ℕ → ℕ
get_payload payload = payload % 4

abbrev pub word_at : ℕ → List ℕ → ℕ
word_at i words = get_or words i payload_empty

-- What a caller of getSuccess or getError receives.
pub data Received : Type 0 where
  success : ℕ → Received
  error : ℕ → Received

-- The statements of a program; a construction makes the next variable.
pub data Statement : Type 0 where
  construct_success : ℕ → Statement
  construct_error : ℕ → Statement
  move_new : ℕ → Statement
  move_over : ℕ → ℕ → Statement
  copy_new : ℕ → Statement
  copy_over : ℕ → ℕ → Statement
  destroy_result : ℕ → Statement
  get_success : ℕ → Statement
  get_error : ℕ → Statement

-- isError() and isSuccess()
abbrev pub is_error : ℕ → Bool
is_error payload = get_payload payload == payload_error

abbrev pub is_success : ℕ → Bool
is_success payload = get_payload payload == payload_success

-- What a statement gives to its caller, and two statements in turn.
abbrev pub giving : {S : Type 0} → (ℕ → Received) → Outcome (ℕ × S) → Outcome (List Received × S)
giving f (returned r) = returned (f r.0 ∷ [], r.1)
giving f thrown = thrown
giving f exhausted = exhausted

abbrev pub giving_more :
    {S : Type 0} → List Received → Outcome (List Received × S) → Outcome (List Received × S)
giving_more rs (returned r) = returned (rs ++ r.0, r.1)
giving_more rs thrown = thrown
giving_more rs exhausted = exhausted

abbrev pub in_turn :
    {S : Type 0}
    → Outcome (List Received × S)
    → (S → Outcome (List Received × S))
    → Outcome (List Received × S)
in_turn (returned now) rest = giving_more now.0 (rest now.1)
in_turn thrown rest = thrown
in_turn exhausted rest = exhausted

module _ (asserts : Bool) where
  abbrev pub kwc_assert {ℓ} : {A : Type ℓ} → Bool → A → Outcome A
  kwc_assert condition rest = if asserts && not condition then thrown else returned rest

  unfoldable pub create_payload : ℕ → ℕ → Outcome ℕ
  create_payload ptr type = kwc_assert (ptr % 4 == 0) (or_type ptr type)

  unfoldable pub get_success_from_payload : ℕ → Outcome ℕ
  get_success_from_payload payload = kwc_assert (get_payload payload == payload_success) payload

  unfoldable pub get_error_from_payload : ℕ → Outcome ℕ
  get_error_from_payload payload =
      kwc_assert (get_payload payload == payload_error) (flip_lowest payload)

  -- Result(T* success) and Result(std::unique_ptr<E> error)
  unfoldable pub construct_payload : ℕ → ℕ → List ℕ → Outcome (List ℕ)
  unfolding create_payload
  construct_payload ptr type words = do
    payload ← create_payload ptr type
    returned (words ++ payload ∷ [])

  -- Result(Result&& other)
  unfoldable pub move_construct_payload : ℕ → List ℕ → Outcome (List ℕ)
  move_construct_payload other words =
      returned (set words other payload_empty ++ word_at other words ∷ [])

  -- operator=(Result&& other)
  unfoldable pub move_assign_payload : ℕ → ℕ → List ℕ → Outcome (List ℕ)
  move_assign_payload i other words =
      kwc_assert (word_at i words == payload_empty)
        (set (set words i (word_at other words)) other payload_empty)

  -- Result(const Result& other) and operator=(const Result& other), which no declaration of the
  -- class suppresses: its own members that move are templates.
  unfoldable pub copy_construct_payload : ℕ → List ℕ → Outcome (List ℕ)
  copy_construct_payload other words = returned (words ++ word_at other words ∷ [])

  unfoldable pub copy_assign_payload : ℕ → ℕ → List ℕ → Outcome (List ℕ)
  copy_assign_payload i other words = returned (set words i (word_at other words))

  -- ~Result()
  unfoldable pub destroy_payload : ℕ → List ℕ → Outcome (List ℕ)
  destroy_payload i words = kwc_assert (word_at i words == payload_empty) words

  unfoldable pub take_success : ℕ → List ℕ → Outcome (ℕ × List ℕ)
  unfolding get_success_from_payload
  take_success i words = do
    success_ptr ← get_success_from_payload (word_at i words)
    returned (success_ptr, set words i payload_empty)

  unfoldable pub take_error : ℕ → List ℕ → Outcome (ℕ × List ℕ)
  unfolding get_error_from_payload
  take_error i words = do
    error_ptr ← get_error_from_payload (word_at i words)
    returned (error_ptr, set words i payload_empty)

  -- A statement, and what its caller receives.
  unfoldable pub step : Statement → List ℕ → Outcome (List Received × List ℕ)
  unfolding construct_payload move_construct_payload move_assign_payload copy_construct_payload
      copy_assign_payload destroy_payload take_success take_error
  step (construct_success ptr) words = do
    words' ← construct_payload ptr payload_success words
    returned ([], words')
  step (construct_error ptr) words = do
    words' ← construct_payload ptr payload_error words
    returned ([], words')
  step (move_new other) words = do
    words' ← move_construct_payload other words
    returned ([], words')
  step (move_over i other) words = do
    words' ← move_assign_payload i other words
    returned ([], words')
  step (copy_new other) words = do
    words' ← copy_construct_payload other words
    returned ([], words')
  step (copy_over i other) words = do
    words' ← copy_assign_payload i other words
    returned ([], words')
  step (destroy_result i) words = do words' ← destroy_payload i words; returned ([], words')
  step (get_success i) words = giving success (take_success i words)
  step (get_error i) words = giving error (take_error i words)

  unfoldable pub run : List Statement → List ℕ → Outcome (List Received × List ℕ)
  unfolding step
  run [] words = returned ([], words)
  run (s ∷ program) words = in_turn (step s words) (run program)

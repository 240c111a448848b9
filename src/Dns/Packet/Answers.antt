-- ===== src/Dns/Packet/Answers.antt =====
-- The responses that main/dns_server.c builds itself.
use esp32_wifi_ap_cp.Base.{
  ℕ, ◌+◌, ◌<◌, ◌≤◌, ◌≡◌, refl, ap, ◌≢◌, ◌∙◌, sym, ◌⊎◌, inl, inr, Bool, true, false, some, List, [],
  ◌∷◌, ◌++◌, arith, if◌then◌else◌, length, take, drop, length-set, length-take, length-append,
  get_or-set_ne, get_or-append, get_or-take, drop-append, Option-cases,
}
use esp32_wifi_ap_cp.Dns.Packet.{
  byte_at, dns_skip_name, answer_header, portal_answer, build_dns_response,
}
use esp32_wifi_ap_cp.Dns.Packet.Parsing.{skip_name_within, skip_name-agree}

length-answer_header : (b : Bool) (bytes : List ℕ) → length (answer_header b bytes) ≡ length bytes
length-answer_header b bytes =
    length-set _ 11 0
    ∙ length-set _ 10 0
    ∙ length-set _ 9 0
    ∙ length-set _ 8 0
    ∙ length-set _ 7 _
    ∙ length-set _ 6 0
    ∙ length-set _ 3 _
    ∙ length-set _ 2 _

-- The header changes the flags and the counts only.
IsKept : ℕ → Type 0
IsKept j = (j < 2) ⊎ ((j ≡ 4) ⊎ ((j ≡ 5) ⊎ (12 ≤ j)))

answer_header-kept :
    (b : Bool) (bytes : List ℕ) (j : ℕ)
    → IsKept j
    → byte_at (answer_header b bytes) j ≡ byte_at bytes j
unfolding IsKept
answer_header-kept b bytes j k =
    get_or-set_ne _ 11 j _ 0 (λ e. omega arith)
    ∙ get_or-set_ne _ 10 j _ 0 (λ e. omega arith)
    ∙ get_or-set_ne _ 9 j _ 0 (λ e. omega arith)
    ∙ get_or-set_ne _ 8 j _ 0 (λ e. omega arith)
    ∙ get_or-set_ne _ 7 j _ 0 (λ e. omega arith)
    ∙ get_or-set_ne _ 6 j _ 0 (λ e. omega arith)
    ∙ get_or-set_ne _ 3 j _ 0 (λ e. omega arith)
    ∙ get_or-set_ne _ 2 j _ 0 (λ e. omega arith)

-- The flags and the counts of a response: a recursive answer to a recursive query, no error, and as many
-- answers as `b` says, with no record of authority and no additional one.
IsAnswerHeader : Bool → List ℕ → Type 0
IsAnswerHeader b bytes =
    (byte_at bytes 2 ≡ 0x81)
    × (byte_at bytes 3 ≡ 0x80)
    × (byte_at bytes 6 ≡ 0)
    × (byte_at bytes 7 ≡ (if b then 1 else 0))
    × (byte_at bytes 8 ≡ 0)
    × (byte_at bytes 9 ≡ 0)
    × (byte_at bytes 10 ≡ 0)
    × (byte_at bytes 11 ≡ 0)

answer_header_lem :
    (b : Bool) (bytes : List ℕ) → 12 ≤ length bytes → IsAnswerHeader b (answer_header b bytes)
unfolding IsAnswerHeader
answer_header_lem b (x0 ∷ x1 ∷ x2 ∷ x3 ∷ x4 ∷ x5 ∷ x6 ∷ x7 ∷ x8 ∷ x9 ∷ x10 ∷ x11 ∷ xs) l =
    (refl, refl, refl, refl, refl, refl, refl, refl)
answer_header_lem b _ l = absurd (omega arith)

-- What follows the question.
abbrev pub answers_of : ℕ → Bool → List ℕ
answers_of my_ap_ip with_answer = if with_answer then portal_answer my_ap_ip else []

append_nil : (xs : List ℕ) → xs ++ [] ≡ xs
append_nil [] = refl
append_nil (x ∷ xs) = ap (◌∷◌ x) (append_nil xs)

-- What the guards and the pieces of a response are.
record IsBuilt (my_ap_ip : ℕ) (q : List ℕ) (size : ℕ) (b : Bool) (r : List ℕ) : Type 0 where
  named : dns_skip_name q 12 ≢ 0
  whole : dns_skip_name q 12 + 4 ≤ length q
  room : length q ≤ size
  answer_room : b ≡ true → dns_skip_name q 12 + 20 ≤ size
  pieces : r ≡ answer_header b (take (dns_skip_name q 12 + 4) q) ++ answers_of my_ap_ip b

build-IsBuilt :
    (ip : ℕ) (q : List ℕ) (size : ℕ) (b : Bool) (r : List ℕ)
    → build_dns_response ip q size b ≡ some r
    → IsBuilt ip q size b r
unfolding build_dns_response
build-IsBuilt ip q size true r h = record {
  named = ground (arith, h);
  whole = ground (arith, h);
  room = ground (arith, h);
  answer_room = λ _. ground (arith, h);
  pieces = ground (arith, h);
}
build-IsBuilt ip q size false r h = record {
  named = ground (arith, h);
  whole = ground (arith, h);
  room = ground (arith, h);
  answer_room = λ e. ground (arith, e);
  pieces = ground (arith, h) ∙ sym (append_nil _);
}

-- A response to a query: it fits, repeats the transaction id and the question, so that the client reads
-- the same name in it, is marked as a response without an error, says how many records follow, and carries
-- the portal's address or no answer.
pub record IsResponse (my_ap_ip : ℕ) (q : List ℕ) (size : ℕ) (b : Bool) (r : List ℕ) : Type 0 where
  pub fits : length r ≤ size
  pub id : (byte_at r 0 ≡ byte_at q 0) × (byte_at r 1 ≡ byte_at q 1)
  pub header : (byte_at r 2 ≡ 0x81) × (byte_at r 3 ≡ 0x80)
  pub questions : (byte_at r 4 ≡ byte_at q 4) × (byte_at r 5 ≡ byte_at q 5)
  pub answer_count : (byte_at r 6 ≡ 0) × (byte_at r 7 ≡ (if b then 1 else 0))
  pub other_counts : (byte_at r 8 ≡ 0) × (byte_at r 9 ≡ 0) × (byte_at r 10 ≡ 0) × (byte_at r 11 ≡ 0)
  pub question : (j : ℕ) → 12 ≤ j → j < dns_skip_name q 12 + 4 → byte_at r j ≡ byte_at q j
  pub name : dns_skip_name r 12 ≡ dns_skip_name q 12
  pub answers : drop (dns_skip_name q 12 + 4) r ≡ answers_of my_ap_ip b

length-answers : (ip : ℕ) (b : Bool) → length (answers_of ip b) ≡ (if b then 16 else 0)
length-answers ip true = refl
length-answers ip false = refl

-- Whatever the server builds is a proper response to the query: it fits, repeats the transaction id, the
-- question count and the question, has the flags of an answer without an error (0x81, 0x80), counts one
-- answer or none, as the caller asks, and nothing else, and carries the portal's address or no answer.
pub build_dns_response-IsResponse :
    (ip : ℕ) (q : List ℕ) (size : ℕ) (b : Bool) (r : List ℕ)
    → build_dns_response ip q size b ≡ some r
    → IsResponse ip q size b r
unfolding IsKept IsAnswerHeader
build_dns_response-IsResponse ip q size b r h = record {
  fits = fits;
  id = (copied 0 (inl (omega arith)) (omega arith), copied 1 (inl (omega arith)) (omega arith));
  header = (written 2 (omega arith) ∙ flags.0, written 3 (omega arith) ∙ flags.1);
  questions = (
    copied 4 (inr (inl refl)) (omega (arith, inside)),
    copied 5 (inr (inr (inl refl))) (omega (arith, inside)),
  );
  answer_count = (written 6 (omega arith) ∙ flags.2, written 7 (omega arith) ∙ flags.3);
  other_counts = (
    written 8 (omega arith) ∙ flags.4,
    written 9 (omega arith) ∙ flags.5,
    written 10 (omega arith) ∙ flags.6,
    written 11 (omega arith) ∙ flags.7,
  );
  question = λ j a l. copied j (inr (inr (inr a))) l;
  name =
      skip_name-agree 12 q r built.named (omega (arith, total, inside))
        (λ j a l. copied j (inr (inr (inr a))) (omega arith));
  answers = tail;
}
  where
    built : IsBuilt ip q size b r
    built = build-IsBuilt ip q size b r h

    end : ℕ
    end = dns_skip_name q 12 + 4

    inside : (12 < dns_skip_name q 12) × (dns_skip_name q 12 ≤ length q)
    inside = skip_name_within q 12 built.named

    head : List ℕ
    head = answer_header b (take end q)

    head_length : length head ≡ end
    head_length = omega (arith, length-answer_header b (take end q), length-take end q, built.whole)

    total : length r ≡ end + (if b then 16 else 0)
    total =
        ap length built.pieces
        ∙ length-append head (answers_of ip b)
        ∙ omega (arith, head_length, length-answers ip b)

    fits : length r ≤ size
    fits = ground (arith, total, built.whole, built.room, built.answer_room)

    flags : IsAnswerHeader b head
    flags = answer_header_lem b (take end q) (omega (arith, length-take end q, built.whole, inside))

    written : (j : ℕ) → j < 12 → byte_at r j ≡ byte_at head j
    written j l =
        ap (λ xs. byte_at xs j) built.pieces
        ∙ get_or-append head (answers_of ip b) j 0 (omega (arith, head_length, inside))

    copied : (j : ℕ) → IsKept j → j < end → byte_at r j ≡ byte_at q j
    copied j k l =
        ap (λ xs. byte_at xs j) built.pieces
        ∙ get_or-append head (answers_of ip b) j 0 (omega (arith, head_length))
        ∙ answer_header-kept b (take end q) j k
        ∙ get_or-take end q j 0 l

    tail : drop end r ≡ answers_of ip b
    tail =
        ap (drop end) built.pieces
        ∙ ap (λ n. drop n (head ++ answers_of ip b)) (sym head_length)
        ∙ drop-append head (answers_of ip b)

-- Into a buffer of 32 bytes or more, a query that fits it and whose name ends within the query,
-- with a type and a class after it and an answer's room behind them, gets a response, and it is a
-- proper one.
pub whole_query_is_answered :
    (ip : ℕ) (q : List ℕ) (size : ℕ) (b : Bool)
    → 32 ≤ size
    → length q ≤ size
    → dns_skip_name q 12 ≢ 0
    → dns_skip_name q 12 + 4 ≤ length q
    → dns_skip_name q 12 + 20 ≤ size
    → (r : List ℕ) × (build_dns_response ip q size b ≡ some r) × IsResponse ip q size b r
unfolding build_dns_response
whole_query_is_answered ip q size b s l n w a =
    elim (Option-cases (build_dns_response ip q size b)) [
      | inl none_built ↦ absurd (ground (arith, s, l, n, w, a, none_built, skip_name_within q 12 n))
      | inr (r, e) ↦ (r, e, build_dns_response-IsResponse ip q size b r e)
    ]

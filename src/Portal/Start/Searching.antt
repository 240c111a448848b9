-- ===== src/Portal/Start/Searching.antt =====
-- The searches of start_or_resume_session in main/http_server.c stay within the table.
use esp32_wifi_ap_cp.Base.{
  ℕ, ◌<◌, ◌≡◌, refl, inl, inr, Bool, true, Option, none, some, List, [], ◌∷◌, arith, ◌==◌, length,
  get_or, find_slot, find_slot-lt, find_slot_sound, Option-cases, Bool-cases,
}
use esp32_wifi_ap_cp.Portal.Sessions.{
  Session, no_session, find_session_index_by_ip, find_session_index_by_mac,
  find_session_index_by_token, find_free_session_slot,
}
use esp32_wifi_ap_cp.Portal.State.{Portal}
use esp32_wifi_ap_cp.Portal.Start.{
  Client, second_search, slot_to_start, slot_or_first, or_else, first_search,
}

-- An index that a search returned.
abbrev pub Within : ℕ → Option ℕ → Type 0
Within n none = Unit {0}
Within n (some i) = i < n

find_slot-Within : (p : Session → Bool) (ss : List Session) → Within (length ss) (find_slot p ss)
find_slot-Within p ss = elim (Option-cases (find_slot p ss)) [
  | inl e ↦ rw e tt
  | inr (i, e) ↦ rw e (find_slot-lt p ss e)
]

pub by_ip-Within :
    (ip : ℕ) (ss : List Session) → Within (length ss) (find_session_index_by_ip ip ss)
unfolding find_session_index_by_ip
by_ip-Within ip ss = find_slot-Within _ ss

pub by_mac-Within :
    (mac : Option ℕ) (ss : List Session) → Within (length ss) (find_session_index_by_mac mac ss)
unfolding find_session_index_by_mac
by_mac-Within none ss = tt
by_mac-Within (some m) ss = find_slot-Within _ ss

by_token-Within :
    (token : List ℕ) (ss : List Session) → Within (length ss) (find_session_index_by_token token ss)
unfolding find_session_index_by_token
by_token-Within [] ss = tt
by_token-Within (x ∷ xs) ss = find_slot-Within _ ss

free-Within : (ss : List Session) → Within (length ss) (find_free_session_slot ss)
unfolding find_free_session_slot
free-Within ss = find_slot-Within _ ss

or_else-Within : (n : ℕ) (i j : Option ℕ) → Within n i → Within n j → Within n (or_else i j)
or_else-Within n none j a b = b
or_else-Within n (some i) j a b = a

pub first_search-Within : (c : Client) (p : Portal) → Within (length p.sessions) (first_search c p)
first_search-Within c p = elim (Bool-cases (c.ip == 0)) [
  | inl z ↦ rw z (by_token-Within c.token p.sessions)
  | inr z ↦
      rw z (or_else-Within _ _ _ (by_mac-Within c.mac p.sessions) (by_ip-Within c.ip p.sessions))
]

second_search-Within :
    (stale : Option ℕ) (c : Client) (p : Portal) (mac : Option ℕ)
    → c.mac ≡ mac
    → Within (length p.sessions) stale
    → Within (length p.sessions) (second_search stale c p)
second_search-Within stale c p none e w =
    rw e (or_else-Within _ stale _ w (by_token-Within c.token p.sessions))
second_search-Within stale c p (some m) e w =
    rw e (
      or_else-Within _ _ _ (by_mac-Within (some m) p.sessions) (by_token-Within c.token p.sessions))

slot-lt : (n : ℕ) (o : Option ℕ) → 0 < n → Within n o → slot_or_first o < n
slot-lt n none pos w = pos
slot-lt n (some i) pos w = w

pub slot_to_start-lt :
    (stale : Option ℕ) (c : Client) (p : Portal)
    → 0 < length p.sessions
    → Within (length p.sessions) stale
    → slot_to_start stale c p < length p.sessions
slot_to_start-lt stale c p pos w =
    slot-lt _ _ pos
      (or_else-Within _ _ _ (second_search-Within stale c p c.mac refl w) (free-Within p.sessions))

-- The slot that the first search finds is in use.
abbrev pub ActiveAt : List Session → Option ℕ → Type 0
ActiveAt ss none = Unit {0}
ActiveAt ss (some i) = (get_or ss i no_session).active ≡ true

find_slot-ActiveAt :
    (p : Session → Bool) (ss : List Session)
    → ((s : Session) → p s ≡ true → s.active ≡ true)
    → ActiveAt ss (find_slot p ss)
find_slot-ActiveAt p ss h = elim (Option-cases (find_slot p ss)) [
  | inl e ↦ rw e tt
  | inr (i, e) ↦ rw e (h _ (find_slot_sound p ss i no_session e))
]

by_ip-ActiveAt : (ip : ℕ) (ss : List Session) → ActiveAt ss (find_session_index_by_ip ip ss)
unfolding find_session_index_by_ip
by_ip-ActiveAt ip ss = find_slot-ActiveAt _ ss (λ s e. ground arith)

by_mac-ActiveAt :
    (mac : Option ℕ) (ss : List Session) → ActiveAt ss (find_session_index_by_mac mac ss)
unfolding find_session_index_by_mac
by_mac-ActiveAt none ss = tt
by_mac-ActiveAt (some m) ss = find_slot-ActiveAt _ ss (λ s e. ground arith)

by_token-ActiveAt :
    (token : List ℕ) (ss : List Session) → ActiveAt ss (find_session_index_by_token token ss)
unfolding find_session_index_by_token
by_token-ActiveAt [] ss = tt
by_token-ActiveAt (x ∷ xs) ss = find_slot-ActiveAt _ ss (λ s e. ground arith)

or_else-ActiveAt :
    (ss : List Session) (i j : Option ℕ) → ActiveAt ss i → ActiveAt ss j → ActiveAt ss (or_else i j)
or_else-ActiveAt ss none j a b = b
or_else-ActiveAt ss (some i) j a b = a

pub first_search-ActiveAt : (c : Client) (p : Portal) → ActiveAt p.sessions (first_search c p)
first_search-ActiveAt c p = elim (Bool-cases (c.ip == 0)) [
  | inl z ↦ rw z (by_token-ActiveAt c.token p.sessions)
  | inr z ↦ rw z (
      or_else-ActiveAt p.sessions _ _ (by_mac-ActiveAt c.mac p.sessions)
        (by_ip-ActiveAt c.ip p.sessions))
]

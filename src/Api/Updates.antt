-- ===== src/Api/Updates.antt =====
-- What the requests of main/admin_ports.c that change a row of the database send.
use esp32_wifi_ap_cp.Base.{
  ℕ, ◌≤◌, ◌≡◌, refl, ◌⊎◌, inl, inr, true, Option, none, some, List, [], ◌∷◌, ◌++◌, arith, length,
  Bool-cases, All, str_eq, str_eq→≡,
}
use esp32_wifi_ap_cp.Base.Errors.{EspErr}
use esp32_wifi_ap_cp.Base.Texts.{ℤ, codes}
use esp32_wifi_ap_cp.Config.Text.{before_nul}
use esp32_wifi_ap_cp.Api.{
  Recv, Request, answer_of, receive, read_body, json_str_field, is_known_port, is_known_status,
  port_payload, post_port, post_fields, post_body, api_ports_handler, clamp_percent,
  battery_payload, post_percent, post_battery, api_battery_handler,
}

abbrev pub ports : List (List ℕ)
ports = codes "usb_a_1" ∷ codes "usb_a_2" ∷ codes "usb_c_1" ∷ codes "usb_c_2" ∷ codes "outlet" ∷ []

abbrev pub statuses : List (List ℕ)
statuses = codes "available" ∷ codes "in_use" ∷ codes "offline" ∷ codes "fault" ∷ []

-- One of the texts of a list.
abbrev pub IsOneOf : List (List ℕ) → List ℕ → Type 0
IsOneOf [] text = ⊥
IsOneOf (t ∷ ts) text = (text ≡ t) ⊎ IsOneOf ts text

known_port_is_listed : (key : List ℕ) → is_known_port key ≡ true → IsOneOf ports key
unfolding is_known_port
known_port_is_listed key h = elim (Bool-cases (str_eq key (codes "usb_a_1"))) [
  | inl e ↦ inl (str_eq→≡ _ _ e)
  | inr e1 ↦ elim (Bool-cases (str_eq key (codes "usb_a_2"))) [
    | inl e ↦ inr (inl (str_eq→≡ _ _ e))
    | inr e2 ↦ elim (Bool-cases (str_eq key (codes "usb_c_1"))) [
      | inl e ↦ inr (inr (inl (str_eq→≡ _ _ e)))
      | inr e3 ↦ elim (Bool-cases (str_eq key (codes "usb_c_2"))) [
        | inl e ↦ inr (inr (inr (inl (str_eq→≡ _ _ e))))
        | inr e4 ↦ inr (inr (inr (inr (inl (str_eq→≡ _ _ (ground (arith, e1, e2, e3, e4, h)))))))
      ]
    ]
  ]
]

known_status_is_listed : (status : List ℕ) → is_known_status status ≡ true → IsOneOf statuses status
unfolding is_known_status
known_status_is_listed status h = elim (Bool-cases (str_eq status (codes "available"))) [
  | inl e ↦ inl (str_eq→≡ _ _ e)
  | inr e1 ↦ elim (Bool-cases (str_eq status (codes "in_use"))) [
    | inl e ↦ inr (inl (str_eq→≡ _ _ e))
    | inr e2 ↦ elim (Bool-cases (str_eq status (codes "offline"))) [
      | inl e ↦ inr (inr (inl (str_eq→≡ _ _ e)))
      | inr e3 ↦ inr (inr (inr (inl (str_eq→≡ _ _ (ground (arith, e1, e2, e3, h))))))
    ]
  ]
]

-- Nothing is sent, or the row of a known port with a known status.
abbrev pub NothingOrKnown : Option (List ℕ) → Type 0
NothingOrKnown sent =
    (sent ≡ none)
    ⊎ ((key : List ℕ) × (status : List ℕ) × IsOneOf ports key
        × IsOneOf statuses status
        × (sent ≡ some (port_payload key status)))

post_port-known :
    (upsert : List ℕ → EspErr) (key status : List ℕ)
    → NothingOrKnown (post_port upsert key status).1
post_port-known upsert key status = elim (Bool-cases (is_known_port key)) [
  | inl k ↦ elim (Bool-cases (is_known_status status)) [
    | inl s ↦
        inr
          (key, status, known_port_is_listed key k, known_status_is_listed status s, rw (k, s) refl)
    | inr s ↦ inl (rw (k, s) refl)
  ]
  | inr k ↦ inl (rw k refl)
]

post_fields-known :
    (upsert : List ℕ → EspErr) (key status : Option (List ℕ))
    → NothingOrKnown (post_fields upsert key status).1
post_fields-known upsert none status = inl refl
post_fields-known upsert (some key) none = inl refl
post_fields-known upsert (some key) (some status) = post_port-known upsert key status

post_body-known :
    (upsert : List ℕ → EspErr) (body : Option (List ℕ)) → NothingOrKnown (post_body upsert body).1
post_body-known upsert none = inl refl
post_body-known upsert (some bs) = post_fields-known upsert _ _

-- Whatever a client sends to /api/ports, in whatever pieces: the database gets nothing, or the row of one
-- of the five ports with one of the four statuses, and no other text.
pub port_update_is_known :
    (upsert : List ℕ → EspErr) (r : Request) → NothingOrKnown (api_ports_handler upsert r).1
unfolding api_ports_handler
port_update_is_known upsert r = post_body-known upsert (read_body 256 r)

clamp_percent-le : (n : ℤ) → clamp_percent n ≤ 100
unfolding clamp_percent
clamp_percent-le (ℤ.pos n) = ground arith
clamp_percent-le (ℤ.negsuc n) = omega arith

-- Nothing is sent, or a percentage.
abbrev pub NothingOrPercent : Option (List ℕ) → Type 0
NothingOrPercent sent =
    (sent ≡ none) ⊎ ((percent : ℕ) × (percent ≤ 100) × (sent ≡ some (battery_payload percent)))

post_percent-le :
    (upsert : List ℕ → EspErr) (n : Option ℤ) → NothingOrPercent (post_percent upsert n).1
post_percent-le upsert none = inl refl
post_percent-le upsert (some n) = inr (clamp_percent n, clamp_percent-le n, refl)

post_battery-le :
    (upsert : List ℕ → EspErr) (body : Option (List ℕ))
    → NothingOrPercent (post_battery upsert body).1
post_battery-le upsert none = inl refl
post_battery-le upsert (some bs) = post_percent-le upsert _

-- Whatever a client sends to /api/battery, the database gets nothing, or a number from 0 to 100.
pub battery_update_is_percent :
    (upsert : List ℕ → EspErr) (r : Request) → NothingOrPercent (api_battery_handler upsert r).1
unfolding api_battery_handler
battery_update_is_percent upsert r = post_battery-le upsert (read_body 128 r)

-- The body that the page sends.
abbrev pub port_form : List ℕ → List ℕ → List ℕ
port_form key status =
    codes "{\"port_key\":\"" ++ (key ++ (codes "\",\"status\":\"" ++ (status ++ codes "\"}")))

abbrev pub in_one_piece : List ℕ → Request
in_one_piece text = record { content_len = length text; body = Recv.bytes text ∷ [] }

-- For each of the five ports and each of the four statuses, what the page's form sends in one piece is read
-- back as that port and that status, and is sent on; the answer tells whether the database took it.
pub form_is_posted :
    (upsert : List ℕ → EspErr)
    → All
        (λ key.
          All
            (λ status.
              api_ports_handler upsert (in_one_piece (port_form key status))
              ≡ (answer_of (upsert (port_payload key status)), some (port_payload key status)))
            statuses)
        ports
unfolding api_ports_handler read_body receive before_nul json_str_field is_known_port
    is_known_status
form_is_posted upsert = (
  (refl, (refl, (refl, (refl, tt)))),
  (
    (refl, (refl, (refl, (refl, tt)))),
    (
      (refl, (refl, (refl, (refl, tt)))),
      ((refl, (refl, (refl, (refl, tt)))), ((refl, (refl, (refl, (refl, tt)))), tt)),
    ),
  ),
)

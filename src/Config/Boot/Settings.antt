-- ===== src/Config/Boot/Settings.antt =====
-- What a console command sets, and what the next boot makes of it.
use esp32_wifi_ap_cp.Base.{
  ℕ, ◌≡◌, refl, true, false, Option, none, some, List, [], ◌∷◌, arith, ap, ◌∙◌, fun_ext,
  if◌then◌else◌, ltb, length, is_empty, Bool-cases, inl, inr,
}
use esp32_wifi_ap_cp.Base.Errors.{is_ok}
use esp32_wifi_ap_cp.Config.Text.{preprocess_string}
use esp32_wifi_ap_cp.Config.Store.{
  Key, Values, Nvs, Store, update, reboot, get_config_param_str, put_all, set_and_commit, or_empty,
  set_sta, set_ap, set_ap_ip,
}
use esp32_wifi_ap_cp.Config.Boot.{default_ap_ssid, param_or, str_param, load_config, wifi_init}
use esp32_wifi_ap_cp.Portal.Sessions.{strlcpy}

-- NVS reads whatever is there.
pub record IsReadable (nvs : Nvs) : Type 0 where
  pub opens : is_ok nvs.opens ≡ true
  pub gets : (k : Key) → is_ok (nvs.get k) ≡ true

abbrev with_values : List (Key × List ℕ) → Values → Values
with_values [] v = v
with_values ((k, x) ∷ kvs) v = with_values kvs (update k x v)

put_all_sets :
    (nvs : Nvs) (kvs : List (Key × List ℕ)) (s : Store)
    → is_ok (put_all nvs kvs s).0 ≡ true
    → (put_all nvs kvs s).1.current ≡ with_values kvs s.current
unfolding put_all
put_all_sets nvs [] s ok = refl
put_all_sets nvs ((k, x) ∷ kvs) s ok = elim (Bool-cases (is_ok (nvs.set k))) [
  | inl e ↦
      let s1 : Store = record s { current = update k x s.current } in
      let rest : is_ok (put_all nvs kvs s1).0 ≡ true = ground (arith, ok, e) in
      rw (e) (put_all_sets nvs kvs s1 rest)
  | inr e ↦ ground (arith, ok, e)
]

put_all_commits_nothing :
    (nvs : Nvs) (kvs : List (Key × List ℕ)) (s : Store)
    → (put_all nvs kvs s).1.committed ≡ s.committed
unfolding put_all
put_all_commits_nothing nvs [] s = refl
put_all_commits_nothing nvs ((k, x) ∷ kvs) s = elim (Bool-cases (is_ok (nvs.set k))) [
  | inl e ↦ rw e (put_all_commits_nothing nvs kvs (record s { current = update k x s.current }))
  | inr e ↦ rw (e, e) refl
]

set_and_commit_sets :
    (nvs : Nvs) (kvs : List (Key × List ℕ)) (s : Store)
    → is_ok (set_and_commit nvs kvs s).0 ≡ true
    → let s1 = (set_and_commit nvs kvs s).1 in
      (s1.current ≡ with_values kvs s.current) × (s1.committed ≡ with_values kvs s.current)
unfolding set_and_commit
set_and_commit_sets nvs kvs s ok = ground (arith, ok, put_all_sets nvs kvs s)

str_param_lem :
    (nvs : Nvs) (s : Store) (k : Key) (d : List ℕ)
    → IsReadable nvs
    → str_param nvs s k d ≡ param_or d (s.current k)
unfolding get_config_param_str
str_param_lem nvs s k d r = ground (arith, r.opens, r.gets k)

-- A value of a command that succeeded is the value that the next boot reads.
set_is_read :
    (nvs nvs' : Nvs) (kvs : List (Key × List ℕ)) (s : Store) (k : Key) (d : List ℕ)
    → is_ok (set_and_commit nvs kvs s).0 ≡ true
    → IsReadable nvs'
    → str_param nvs' (reboot nvs (set_and_commit nvs kvs s).1) k d
      ≡ param_or d (with_values kvs s.current k)
set_is_read nvs nvs' kvs s k d ok r =
    let s1 = (set_and_commit nvs kvs s).1 in
    let set = set_and_commit_sets nvs kvs s ok in
    let now : s1.current k ≡ with_values kvs s.current k = ap (λ (v : Values). v k) set.0 in
    let kept : s1.committed k ≡ with_values kvs s.current k = ap (λ (v : Values). v k) set.1 in
    let read : (reboot nvs s1).current k ≡ with_values kvs s.current k =
      ground (arith, now, kept) in
    str_param_lem nvs' (reboot nvs s1) k d r ∙ ap (param_or d) read

-- What set_sta stores is what the next boot has, decoded, where the command reports success and NVS can
-- be read at that boot.
pub set_sta_survives :
    (nvs nvs' : Nvs) (name password : List ℕ) (username identity : Option (List ℕ)) (s : Store)
    → is_ok (set_sta nvs name password username identity s).0 ≡ true
    → IsReadable nvs'
    → let c = load_config nvs' (reboot nvs (set_sta nvs name password username identity s).1) in
      (c.ssid ≡ preprocess_string name)
      × (c.passwd ≡ preprocess_string password)
      × (c.ent_username ≡ or_empty username)
      × (c.ent_identity ≡ or_empty identity)
unfolding set_sta load_config
set_sta_survives nvs nvs' name password username identity s ok r = (
  set_is_read nvs nvs' _ s Key.ssid [] ok r,
  set_is_read nvs nvs' _ s Key.passwd [] ok r,
  set_is_read nvs nvs' _ s Key.ent_username [] ok r,
  set_is_read nvs nvs' _ s Key.ent_identity [] ok r,
)

-- After set_ap has succeeded, the access point of the next boot, with NVS readable, has the name that was
-- set, up to 31 bytes of it; it is open exactly if the decoded password has fewer than 8 characters, and
-- otherwise has that password, up to 63 bytes.
pub set_ap_survives :
    (nvs nvs' : Nvs) (name password : List ℕ) (s : Store)
    → is_ok (set_ap nvs name password s).0 ≡ true
    → IsReadable nvs'
    → let w = wifi_init (load_config nvs' (reboot nvs (set_ap nvs name password s).1)) in
      let pw = preprocess_string password in
      (w.ap_ssid ≡ strlcpy 32 (preprocess_string name))
      × (w.authmode_open ≡ ltb (length pw) 8)
      × (w.ap_password ≡ (if ltb (length pw) 8 then [] else strlcpy 64 pw))
unfolding set_ap load_config wifi_init
set_ap_survives nvs nvs' name password s ok r =
    let n = set_is_read nvs nvs' _ s Key.ap_ssid default_ap_ssid ok r in
    let p = set_is_read nvs nvs' _ s Key.ap_passwd [] ok r in
    (
      ap (strlcpy 32) n,
      ap (λ (pw : List ℕ). ltb (length pw) 8) p,
      ap (λ (pw : List ℕ). if ltb (length pw) 8 then [] else strlcpy 64 pw) p,
    )

-- A set command that reports a failure commits nothing: where the flash has not taken the values all the
-- same, the next boot is the one that would have been without it.
pub failed_set_is_undone :
    (nvs nvs' : Nvs) (kvs : List (Key × List ℕ)) (s : Store)
    → is_ok (set_and_commit nvs kvs s).0 ≡ false
    → ((k : Key) → nvs.flushed k ≡ false)
    → load_config nvs' (reboot nvs (set_and_commit nvs kvs s).1) ≡ load_config nvs' (reboot nvs s)
unfolding set_and_commit
failed_set_is_undone nvs nvs' kvs s failed f =
    let s1 = (set_and_commit nvs kvs s).1 in
    let c : s1.committed ≡ s.committed =
      ground (arith, failed, put_all_commits_nothing nvs kvs s) in
    let same : (k : Key) → (reboot nvs s1).current k ≡ (reboot nvs s).current k =
      λ k. rw (f k) (ap (λ (v : Values). v k) c) in
    ap (λ (v : Values). load_config nvs' (record { current = v; committed = v; handles = 0 }))
      (fun_ext same)

-- A read depends on the value only.
str_param_depends :
    (nvs : Nvs) (s s' : Store) (k : Key) (d : List ℕ)
    → s.current k ≡ s'.current k
    → str_param nvs s k d ≡ str_param nvs s' k d
unfolding get_config_param_str
str_param_depends nvs s s' k d e = ground arith

-- set_ap_ip does not commit: where the flash has not taken its value all the same, the next boot has the
-- address that it would have had without the command, though the command reports success.
pub ap_ip_is_not_committed :
    (nvs nvs' : Nvs) (ip : List ℕ) (s : Store)
    → is_ok nvs.opens ≡ true
    → is_ok (nvs.set Key.ap_ip) ≡ true
    → nvs.flushed Key.ap_ip ≡ false
    → let (err, s1) = set_ap_ip nvs ip s in
      (is_ok err ≡ true)
      × ((load_config nvs' (reboot nvs s1)).ap_ip ≡ (load_config nvs' (reboot nvs s)).ap_ip)
unfolding set_ap_ip load_config
ap_ip_is_not_committed nvs nvs' ip s o w f =
    let s1 = (set_ap_ip nvs ip s).1 in
    let kept : (reboot nvs s1).current Key.ap_ip ≡ (reboot nvs s).current Key.ap_ip =
      ground (arith, o, w, f) in
    (ground (arith, o, w), str_param_depends nvs' (reboot nvs s1) (reboot nvs s) Key.ap_ip _ kept)

-- A station that is set up with a user name and without an identity gets neither a password nor the
-- enterprise log-in at the next boot, with NVS readable then, whatever the password.
pub username_alone_logs_in_nowhere :
    (nvs nvs' : Nvs) (name password username : List ℕ) (s : Store)
    → is_ok (set_sta nvs name password (some username) none s).0 ≡ true
    → IsReadable nvs'
    → is_empty username ≡ false
    → let w =
        wifi_init
          (load_config nvs' (reboot nvs (set_sta nvs name password (some username) none s).1)) in
      (w.sta_password ≡ []) × (w.enterprise ≡ none)
unfolding wifi_init
username_alone_logs_in_nowhere nvs nvs' name password username s ok r u =
    let c = load_config nvs' (reboot nvs (set_sta nvs name password (some username) none s).1) in
    let set = set_sta_survives nvs nvs' name password (some username) none s ok r in
    rw (set.2, set.3, u) (ground arith)

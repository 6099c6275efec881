-- ===== src/Rfb/Keeps.antt =====
-- What is kept by the handlers of messages: any property of the state and of what is heard that is kept by
-- the changes of state that a handler may make.
pub mod Hextile
pub mod Session
use routercenter_old.Prelude.{
  ℕ, zero, suc, ◌+◌, ◌-◌, ◌≡◌, Bool, true, false, not, ◌&&◌, ◌||◌, Option, none, some, List, [],
  ◌∷◌, ◌++◌, length, take, drop, ltb, leb, ◌==◌, if◌then◌else◌, arith,
}
use routercenter_old.Prelude.Int.{ℤ, pos, negsuc, ltb_ℤ}
use routercenter_old.Prelude.Text.{codes}
use routercenter_old.Prelude.Result.{Result, ok, err}
use routercenter_old.Websock
use routercenter_old.Websock.{Websock}
use routercenter_old.Rfb.{
  State, failed, password, security, authentication, security_result, client_initialisation,
  server_initialisation, normal, Rfb, M, ◌>>=◌, ◌>>◌, pure, modify, call,
}
use routercenter_old.Rfb.Queue.{
  shift8, shift16, shift32, shift_bytes, shift_rest, shift_str, skip8, skip_bytes, wait, send,
}
use routercenter_old.Rfb.Life.{update_state, fail, set_timer}
use routercenter_old.Rfb.Words.{
  same_text, ServerVersion, repeater, invalid, version_of, choose_type, capabilities, offers,
  tunnel_zero, is_number, is_above_0, as_number,
}
use routercenter_old.Rfb.Handshake.{
  ask_password, answer_challenge, negotiate_std_vnc_auth, client_init, give_up, choose_tunnel,
  negotiate_tight_tunnels, fail_with_reason, failed_reason, answer_version,
  negotiate_protocol_version, choose_sub_auth, negotiate_sub_auth, negotiate_tight_auth, say_xvp,
  negotiate_xvp_auth, act_on_result, handle_security_result, take_type, negotiate_authentication,
  negotiate_security, shift_types,
}

module _ {κ} (Q : State → Bool → Bool → Type κ) where
  abbrev pub P : Rfb → Type κ
  P r = Q r.rfb_state r.hears_open r.hears_message

  -- A step after which P holds, from wherever it holds.
  abbrev pub Keeps {ℓ} : {A : Type ℓ} → M A → Type κ
  Keeps m = (r : Rfb) → P r → P (m r).1

  pub after {ℓ ℓ'} :
      {A : Type ℓ} {B : Type ℓ'} (f : A → M B) (out : Result A × Rfb)
      → P out.1
      → ((a : A) → Keeps (f a))
      → P
          (let (o, r') = out in
            elim o as (λ _. Result B × Rfb) [ ok a ↦ f a r' | err e ↦ (err e, r') ]).1
  after f (ok a, r') p k = k a r' p
  after f (err e, r') p k = p

  pub in_turn {ℓ ℓ'} :
      {A : Type ℓ} {B : Type ℓ'} (m : M A) (f : A → M B)
      → Keeps m
      → ((a : A) → Keeps (f a))
      → Keeps (m >>= f)
  unfolding ◌>>=◌
  in_turn m f k l r p = after f (m r) (k r p) l

  pub either_way {ℓ} :
      {A : Type ℓ} (b : Bool) (m n : M A) → Keeps m → Keeps n → Keeps (if b then m else n)
  either_way true m n k l = k
  either_way false m n k l = l

  pub wait-Keeps : (num : Option ℤ) (goback : ℤ) → Keeps (wait num goback)
  unfolding wait
  wait-Keeps none goback r p = p
  wait-Keeps (some num) goback r p = ground (arith, p)

  pub shift_str-Keeps : (len : Option ℤ) → Keeps (shift_str len)
  unfolding shift_str
  shift_str-Keeps none r p = p
  shift_str-Keeps (some (pos n)) r p = p
  shift_str-Keeps (some (negsuc n)) r p = ground (arith, p)

  pub if_after {ℓ} :
      {A : Type ℓ} (b : Bool) (x y : A × Rfb) → P x.1 → P y.1 → P (if b then x else y).1
  if_after true x y p q = p
  if_after false x y p q = q

  pub if_state : (b : Bool) (x y : Rfb) → P x → P y → P (if b then x else y)
  if_state true x y p q = p
  if_state false x y p q = q

  pub shift8-Keeps : Keeps shift8
  unfolding shift8
  shift8-Keeps r p = p

  pub shift32-Keeps : Keeps shift32
  unfolding shift32
  shift32-Keeps r p = p

  pub shift16-Keeps : Keeps shift16
  unfolding shift16
  shift16-Keeps r p = p

  shift_rest-Keeps : Keeps shift_rest
  unfolding shift_rest
  shift_rest-Keeps r p = p

  pub shift_bytes-Keeps : (n : ℕ) → Keeps (shift_bytes n)
  unfolding shift_bytes
  shift_bytes-Keeps n r p = p

  capabilities-Keeps : (n len : ℕ) → Keeps (capabilities n len)
  unfolding capabilities
  capabilities-Keeps zero len = λ r p. p
  capabilities-Keeps (suc n) len = in_turn _ _ shift32-Keeps (λ number.
      in_turn _ _ (shift_str-Keeps _)
        (λ name. in_turn _ _ (capabilities-Keeps n len) (λ rest r p. p)))

  -- Nothing is done until enough has come.
  pub waits_keep :
      (num : Option ℤ) (goback : ℤ) (m : M Bool)
      → Keeps m
      → Keeps (wait num goback >>= λ short. if short then pure false else m)
  waits_keep num goback m k =
      in_turn _ _ (wait-Keeps num goback) (λ short. either_way short _ _ (λ r p. p) k)

  module _ (buffered : Websock → ℕ) (gen_des : List ℕ → List (Option ℕ) → List ℕ)
      (allowed : State → Bool)
      (moves : (s : State) → allowed s ≡ true → (r : Rfb) → P r → P (update_state s r)) where
    pub client_init-Keeps :
        allowed server_initialisation ≡ true → Keeps (client_init buffered gen_des)
    unfolding client_init send
    client_init-Keeps a r p = moves _ a (send buffered ((if r.shared then 1 else 0) ∷ []) r) p

    ask_password-Keeps :
        allowed password ≡ true → (r : Rfb) → P r → P (ask_password buffered gen_des r)
    unfolding ask_password
    ask_password-Keeps a r p = if_state (length r.rfb_password == 0) _ _ (moves _ a r p) p

    answer_challenge-Keeps :
        allowed security_result ≡ true
        → (c : List (Option ℕ)) → Keeps (answer_challenge buffered gen_des c)
    unfolding answer_challenge send
    answer_challenge-Keeps a c r p = moves _ a (send buffered (gen_des r.rfb_password c) r) p

    negotiate_std_vnc_auth-Keeps :
        allowed password ≡ true
        → allowed security_result ≡ true
        → Keeps (negotiate_std_vnc_auth buffered gen_des)
    unfolding negotiate_std_vnc_auth
    negotiate_std_vnc_auth-Keeps a b =
        in_turn (modify (ask_password buffered gen_des)) _ (ask_password-Keeps a) (λ u.
          waits_keep _ _ _ (in_turn _ _ (shift_bytes-Keeps 16) (λ c. answer_challenge-Keeps b c)))

    module _ (fails : allowed failed ≡ true) where
      give_up-Keeps : Keeps give_up
      unfolding fail
      give_up-Keeps r p = moves _ fails r p

      choose_tunnel-Keeps : (name : Option (List ℕ)) → Keeps (choose_tunnel buffered gen_des name)
      unfolding choose_tunnel send
      choose_tunnel-Keeps none r p = give_up-Keeps r p
      choose_tunnel-Keeps (some name) r p = if_after (same_text name _) _ _ p (give_up-Keeps r p)

      negotiate_tight_tunnels-Keeps : (n : ℕ) → Keeps (negotiate_tight_tunnels buffered gen_des n)
      unfolding negotiate_tight_tunnels
      negotiate_tight_tunnels-Keeps n =
          in_turn _ _ (capabilities-Keeps n 12)
            (λ caps. choose_tunnel-Keeps (tunnel_zero caps none))

      fail_with_reason-Keeps : Keeps (fail_with_reason buffered gen_des)
      unfolding fail_with_reason
      fail_with_reason-Keeps =
          in_turn _ _ shift32-Keeps
            (λ strlen. in_turn _ _ (shift_str-Keeps strlen) (λ text. give_up-Keeps))

      failed_reason-Keeps : Keeps failed_reason
      unfolding failed_reason
      failed_reason-Keeps = in_turn _ _ shift32-Keeps (λ strlen.
          waits_keep _ _ _ (in_turn _ _ (shift_str-Keeps strlen) (λ text. give_up-Keeps)))

      answer_version-Keeps :
          allowed security ≡ true → (v : ServerVersion) → Keeps (answer_version buffered gen_des v)
      unfolding answer_version send set_timer
      answer_version-Keeps a invalid r p = give_up-Keeps r p
      answer_version-Keeps a repeater r p = p
      answer_version-Keeps a (version_of v) r p = moves _ a _ p

      pub negotiate_protocol_version-Keeps :
          allowed security ≡ true → Keeps (negotiate_protocol_version buffered gen_des)
      unfolding negotiate_protocol_version
      negotiate_protocol_version-Keeps a r p =
          if_after (ltb_ℤ (Websock.rq_len r.sock) (pos 12)) _ _ (give_up-Keeps r p)
            (in_turn _ _ (shift_str-Keeps _) (λ text. answer_version-Keeps a _) r p)

      module _ (c_ok : allowed client_initialisation ≡ true)
          (s_ok : allowed server_initialisation ≡ true) where
        act_on_result-Keeps : (result : Option ℤ) → Keeps (act_on_result buffered gen_des result)
        unfolding act_on_result
        act_on_result-Keeps result r p =
            if_after (is_number 0 result) _ _
              (client_init-Keeps s_ok (update_state client_initialisation r) (moves _ c_ok r p))
              (if_after (is_number 1 result) _ _
                (if_after (leb 38 r.version) _ _ (failed_reason-Keeps r p) (give_up-Keeps r p))
                (if_after (is_number 2 result) _ _ (give_up-Keeps r p) p))

        pub handle_security_result-Keeps : Keeps (handle_security_result buffered gen_des)
        unfolding handle_security_result
        handle_security_result-Keeps =
            waits_keep _ _ _ (in_turn _ _ shift32-Keeps (λ result. act_on_result-Keeps result))

      module _ (p_ok : allowed password ≡ true) (r_ok : allowed security_result ≡ true) where
        choose_sub_auth-Keeps :
            (caps : List (Option ℤ × List ℕ)) → Keeps (choose_sub_auth buffered gen_des caps)
        unfolding choose_sub_auth send
        choose_sub_auth-Keeps caps r p =
            if_after (offers (codes "STDVNOAUTH__") caps) _ _
              (moves _ r_ok (send buffered (0 ∷ 0 ∷ 0 ∷ 1 ∷ []) r) p)
              (if_after (offers (codes "STDVVNCAUTH_") caps) _ _
                (negotiate_std_vnc_auth-Keeps p_ok r_ok
                  (record (send buffered (0 ∷ 0 ∷ 0 ∷ 2 ∷ []) r) { auth_scheme = some (pos 2) }) p)
                (give_up-Keeps r p))

        negotiate_sub_auth-Keeps : Keeps (negotiate_sub_auth buffered gen_des)
        unfolding negotiate_sub_auth
        negotiate_sub_auth-Keeps = waits_keep _ _ _ (
            in_turn _ _ shift32-Keeps (λ count.
              waits_keep _ _ _
                (in_turn _ _ (capabilities-Keeps _ 12) (λ caps. choose_sub_auth-Keeps caps))))

        negotiate_tight_auth-Keeps : Keeps (negotiate_tight_auth buffered gen_des)
        unfolding negotiate_tight_auth
        negotiate_tight_auth-Keeps r p = if_after r.tightvnc _ _ (negotiate_sub_auth-Keeps r p) (
            waits_keep _ _ _
              (in_turn _ _ shift32-Keeps (λ n.
                in_turn _ _ (either_way (is_above_0 n) _ _ (wait-Keeps _ _) (λ r p. p)) (λ short.
                  either_way short _ _ (λ r p. p)
                    (in_turn _ _ (λ r p. p)
                      (λ u.
                        either_way (is_above_0 n) _ _
                          (in_turn _ _ (negotiate_tight_tunnels-Keeps _) (λ b r p. p))
                          negotiate_sub_auth-Keeps)))))
              r p)

        say_xvp-Keeps : (parts : List (List ℕ)) → Keeps (say_xvp buffered gen_des parts)
        unfolding say_xvp send
        say_xvp-Keeps [] r p = moves _ p_ok r p
        say_xvp-Keeps (user ∷ []) r p = moves _ p_ok r p
        say_xvp-Keeps (user ∷ target ∷ []) r p = moves _ p_ok r p
        say_xvp-Keeps (user ∷ target ∷ word ∷ words) r p =
            negotiate_std_vnc_auth-Keeps p_ok r_ok _ p

        module _ (c_ok : allowed client_initialisation ≡ true)
            (s_ok : allowed server_initialisation ≡ true) where
          pub negotiate_authentication-Keeps : Keeps (negotiate_authentication buffered gen_des)
          unfolding negotiate_authentication negotiate_xvp_auth
          negotiate_authentication-Keeps r p =
              if_after (is_number 0 r.auth_scheme) _ _ (waits_keep _ _ _ fail_with_reason-Keeps r p)
                (if_after (is_number 1 r.auth_scheme) _ _
                  (if_after (leb 38 r.version) _ _ (moves _ r_ok r p) (
                    client_init-Keeps s_ok (update_state client_initialisation r)
                      (moves _ c_ok r p)))
                  (if_after (is_number 22 r.auth_scheme) _ _ (say_xvp-Keeps _ r p) (
                    if_after (is_number 2 r.auth_scheme) _ _
                      (negotiate_std_vnc_auth-Keeps p_ok r_ok r p)
                      (if_after (is_number 16 r.auth_scheme) _ _ (negotiate_tight_auth-Keeps r p)
                        (give_up-Keeps r p)))))

          take_type-Keeps :
              allowed authentication ≡ true → (t : ℕ) → Keeps (take_type buffered gen_des t)
          unfolding take_type send
          take_type-Keeps a t r p =
              let told = send buffered (t ∷ []) (record r { auth_scheme = some (pos t) }) in
              if_after (t == 0) _ _ (give_up-Keeps (record r { auth_scheme = some (pos 0) }) p) (
                negotiate_authentication-Keeps (update_state authentication told)
                  (moves _ a told p))

          shift_types-Keeps : (num : Option ℕ) → Keeps (shift_types buffered gen_des num)
          unfolding shift_types
          shift_types-Keeps none = shift_rest-Keeps
          shift_types-Keeps (some num) = shift_bytes-Keeps num

          pub negotiate_security-Keeps :
              allowed authentication ≡ true → Keeps (negotiate_security buffered gen_des)
          unfolding negotiate_security
          negotiate_security-Keeps a r p =
              if_after (leb 37 r.version) _ _
                (in_turn _ _ shift8-Keeps
                  (λ num. in_turn _ _ (wait-Keeps _ _) (λ short.
                    either_way short _ _ (λ r p. p)
                      (either_way (is_number 0 (as_number num)) _ _ fail_with_reason-Keeps (
                        in_turn _ _ (shift_types-Keeps num)
                          (λ types. take_type-Keeps a (choose_type 0 types))))))
                  r p)
                (waits_keep _ _ _
                  (in_turn _ _ shift32-Keeps (λ scheme r p.
                    negotiate_authentication-Keeps
                      (update_state authentication (record r { auth_scheme = scheme }))
                      (moves _ a (record r { auth_scheme = scheme }) p)))
                  r p)

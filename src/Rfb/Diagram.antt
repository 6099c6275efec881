-- ===== src/Rfb/Diagram.antt =====
-- The states of a connection of statics/include/rfb.js, and which of them a frame from the server leads to.
use routercenter_old.Prelude.{
  ℕ, ◌≡◌, refl, sym, ◌∙◌, ap, ◌⊎◌, inl, inr, Bool, true, false, ◌&&◌, Option, some, List,
  if◌then◌else◌, arith,
}
use mathlib.Core.Path.{subst}
use routercenter_old.Prelude.Int.{ℤ}
use routercenter_old.Prelude.Result.{Result}
use routercenter_old.Websock
use routercenter_old.Websock.{Websock}
use routercenter_old.Rfb.{
  State, disconnected, loaded, connect, disconnect, failed, fatal, normal, password,
  protocol_version, security, authentication, security_result, client_initialisation,
  server_initialisation, Call, Rfb, ◌>>=◌, pure,
}
use routercenter_old.Rfb.Messages.{CleanDirty}
use routercenter_old.Rfb.Life.{
  set_timer, is_failed, is_disconnected, is_normal, enter, stop_disconnecting, update_state,
}
use routercenter_old.Rfb.Updates.{Effect}
use routercenter_old.Rfb.Words.{is_number}
use routercenter_old.Rfb.Keeps.{
  P, Keeps, after, if_after, client_init-Keeps, negotiate_protocol_version-Keeps,
  negotiate_authentication-Keeps, handle_security_result-Keeps, negotiate_security-Keeps,
}
use routercenter_old.Rfb.Keeps.Session.{negotiate_server_init-Keeps, handle_normal-Keeps}
use routercenter_old.Rfb.Session.{handle_normal, init_step, init_msg, message_step, handle_message}

-- The states behind the handshake's authentication.
abbrev pub is_beyond : State → Bool
is_beyond security_result = true
is_beyond client_initialisation = true
is_beyond server_initialisation = true
is_beyond failed = true
is_beyond _ = false

-- The protocol's diagram: where one frame may lead from a state, besides staying there. 'password'
-- waits for the user, and the other states that are missing for a connection.
unfoldable pub leads : State → State → Bool
leads protocol_version security = true
leads protocol_version failed = true
leads security authentication = true
leads security password = true
leads security s = is_beyond s
leads authentication password = true
leads authentication s = is_beyond s
leads security_result client_initialisation = true
leads security_result server_initialisation = true
leads security_result failed = true
leads client_initialisation server_initialisation = true
leads server_initialisation normal = true
leads normal failed = true
leads _ _ = false

enter_state : (s : State) (r : Rfb) → (enter s r).rfb_state ≡ r.rfb_state
unfolding enter set_timer
enter_state disconnected r = refl
enter_state loaded r = refl
enter_state connect r = refl
enter_state disconnect r = refl
enter_state failed r = refl
enter_state fatal r = refl
enter_state normal r = refl
enter_state password r = refl
enter_state protocol_version r = refl
enter_state security r = refl
enter_state authentication r = refl
enter_state security_result r = refl
enter_state client_initialisation r = refl
enter_state server_initialisation r = refl

stop_disconnecting_state : (r : Rfb) → (stop_disconnecting r).rfb_state ≡ r.rfb_state
unfolding stop_disconnecting
stop_disconnecting_state r = ground arith

pub update_state_state :
    (s : State) (r : Rfb)
    → (update_state s r).rfb_state
      ≡ (if is_failed r.rfb_state && is_disconnected s then failed else s)
unfolding update_state
update_state_state s r = enter_state s _ ∙ stop_disconnecting_state _

leads-disconnected : (s : State) → leads s disconnected ≡ false
unfolding leads
leads-disconnected disconnected = refl
leads-disconnected loaded = refl
leads-disconnected connect = refl
leads-disconnected disconnect = refl
leads-disconnected failed = refl
leads-disconnected fatal = refl
leads-disconnected normal = refl
leads-disconnected password = refl
leads-disconnected protocol_version = refl
leads-disconnected security = refl
leads-disconnected authentication = refl
leads-disconnected security_result = refl
leads-disconnected client_initialisation = refl
leads-disconnected server_initialisation = refl

not_disconnected : (t : State) → (t ≡ disconnected) ⊎ (is_disconnected t ≡ false)
not_disconnected disconnected = inl refl
not_disconnected loaded = inr refl
not_disconnected connect = inr refl
not_disconnected disconnect = inr refl
not_disconnected failed = inr refl
not_disconnected fatal = inr refl
not_disconnected normal = inr refl
not_disconnected password = inr refl
not_disconnected protocol_version = inr refl
not_disconnected security = inr refl
not_disconnected authentication = inr refl
not_disconnected security_result = inr refl
not_disconnected client_initialisation = inr refl
not_disconnected server_initialisation = inr refl

stays_so : (b c : Bool) (t : State) → c ≡ false → (if b && c then failed else t) ≡ t
stays_so b c t n = ground (arith, n)

-- A state that a frame leads to is the state that is entered.
arrives : (s t : State) (r : Rfb) → leads s t ≡ true → (update_state t r).rfb_state ≡ t
arrives s t r p = elim (not_disconnected t) as (λ _. (update_state t r).rfb_state ≡ t) [
  | inl e ↦ absurd (let n = leads-disconnected s in cc)
  | inr n ↦ update_state_state t r ∙ stays_so (is_failed r.rfb_state) (is_disconnected t) t n
]

failed_or_disconnected : (s : State) → (if is_failed s && is_disconnected s then failed else s) ≡ s
failed_or_disconnected disconnected = refl
failed_or_disconnected loaded = refl
failed_or_disconnected connect = refl
failed_or_disconnected disconnect = refl
failed_or_disconnected failed = refl
failed_or_disconnected fatal = refl
failed_or_disconnected normal = refl
failed_or_disconnected password = refl
failed_or_disconnected protocol_version = refl
failed_or_disconnected security = refl
failed_or_disconnected authentication = refl
failed_or_disconnected security_result = refl
failed_or_disconnected client_initialisation = refl
failed_or_disconnected server_initialisation = refl

-- Where a frame may take a client in the state s: nowhere, or along the diagram.
unfoldable pub Follows : State → State → Type 0
Follows s t = (t ≡ s) ⊎ (leads s t ≡ true)

module _ (s : State) where
  abbrev Q : State → Bool → Bool → Type 0
  Q t o m = Follows s t

  moves : (t : State) → leads s t ≡ true → (r : Rfb) → P Q r → P Q (update_state t r)
  unfolding Follows
  moves t l r p = inr (ap (leads s) (arrives s t r l) ∙ l)

  stays : (r : Rfb) → P Q r → P Q (update_state r.rfb_state r)
  unfolding Follows
  stays r p =
      subst (Follows s)
        (sym (update_state_state r.rfb_state r ∙ failed_or_disconnected r.rfb_state)) p

module _ (buffered : Websock → ℕ) (gen_des : List ℕ → List (Option ℕ) → List ℕ)
    (clean_dirty : List Call → CleanDirty) (decode_utf8 : List ℕ → Result (List ℕ))
    (other : ℤ → Rfb → Effect) where
  init_step-Keeps :
      (s : State) → Keeps (Q s) (init_step buffered gen_des clean_dirty decode_utf8 other s)
  unfolding init_step leads
  init_step-Keeps disconnected = λ r p. p
  init_step-Keeps loaded = λ r p. p
  init_step-Keeps connect = λ r p. p
  init_step-Keeps disconnect = λ r p. p
  init_step-Keeps failed = λ r p. p
  init_step-Keeps fatal = λ r p. p
  init_step-Keeps normal = λ r p. p
  init_step-Keeps password = λ r p. p
  init_step-Keeps protocol_version =
      negotiate_protocol_version-Keeps (Q protocol_version) buffered gen_des
        (leads protocol_version) (moves protocol_version) refl refl
  init_step-Keeps security =
      negotiate_security-Keeps (Q security) buffered gen_des (leads security) (moves security) refl
        refl refl refl refl refl
  init_step-Keeps authentication =
      negotiate_authentication-Keeps (Q authentication) buffered gen_des (leads authentication)
        (moves authentication) refl refl refl refl refl
  init_step-Keeps security_result =
      handle_security_result-Keeps (Q security_result) buffered gen_des (leads security_result)
        (moves security_result) refl refl refl
  init_step-Keeps client_initialisation =
      client_init-Keeps (Q client_initialisation) buffered gen_des (leads client_initialisation)
        (moves client_initialisation) refl
  init_step-Keeps server_initialisation =
      negotiate_server_init-Keeps (Q server_initialisation) (leads server_initialisation)
        (moves server_initialisation) buffered gen_des clean_dirty decode_utf8 other refl

  no_answer :
      (r : Rfb)
      → Follows r.rfb_state
          ((init_msg buffered gen_des clean_dirty decode_utf8 other >>= λ _.
              pure {0} {A = Unit {0}} tt)
            r).1.rfb_state
  unfolding init_msg ◌>>=◌ Follows
  no_answer r =
      after (Q r.rfb_state) (λ _. pure {0} {A = Unit {0}} tt)
        (init_msg buffered gen_des clean_dirty decode_utf8 other r)
        (init_step-Keeps r.rfb_state r (inl refl)) (λ _ _ p. p)

  message_step-Follows :
      (s : State) (r : Rfb)
      → is_normal s ≡ false
      → Follows r.rfb_state
          (message_step buffered gen_des clean_dirty decode_utf8 other s r).1.rfb_state
  unfolding message_step Follows
  message_step-Follows disconnected r n = inl refl
  message_step-Follows loaded r n = no_answer r
  message_step-Follows connect r n = no_answer r
  message_step-Follows disconnect r n = no_answer r
  message_step-Follows failed r n = inl refl
  message_step-Follows fatal r n = no_answer r
  message_step-Follows normal r n = absurd (ground (arith, n))
  message_step-Follows password r n = no_answer r
  message_step-Follows protocol_version r n = no_answer r
  message_step-Follows security r n = no_answer r
  message_step-Follows authentication r n = no_answer r
  message_step-Follows security_result r n = no_answer r
  message_step-Follows client_initialisation r n = no_answer r
  message_step-Follows server_initialisation r n = no_answer r

  -- Outside a running session the handler of a frame leaves the client in its state or takes it along
  -- the diagram: from each step of the handshake only to the steps that may follow it, or to 'failed'.
  pub handle_message-Follows :
      (r : Rfb)
      → is_normal r.rfb_state ≡ false
      → Follows r.rfb_state
          (handle_message buffered gen_des clean_dirty decode_utf8 other r).1.rfb_state
  unfolding handle_message Follows
  handle_message-Follows r n =
      if_after (Q r.rfb_state) (is_number 0 (some (Websock.rq_len r.sock))) _ _ (inl refl)
        (message_step-Follows r.rfb_state r n)

  -- In a running session the handler of a frame leaves the client in the state 'normal' or takes it to
  -- 'failed', where the encodings that are not modelled do what an `Effect` says.
  pub handle_normal-Follows :
      (r : Rfb)
      → r.rfb_state ≡ normal
      → Follows normal (handle_normal buffered gen_des clean_dirty decode_utf8 other r).1.rfb_state
  unfolding Follows leads
  handle_normal-Follows r n =
      handle_normal-Keeps (Q normal) (leads normal) (moves normal) buffered gen_des clean_dirty
        decode_utf8 other refl (stays normal) r (inl n)

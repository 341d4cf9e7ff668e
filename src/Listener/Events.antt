-- ===== src/Listener/Events.antt =====
-- What one `Accept` does with the events that come before a connect command.
use text.Mathlib.Text.{◌==◌ as str_eq}
use revdial.Common.{
  ℕ, suc, ◌≡◌, refl, ap, ◌∙◌, Bool, false, List, [], ◌∷◌, ◌++◌, Option, some, map, All, append-nil,
  append_assoc,
}
use revdial.Proto.Conn.{Conn}
use revdial.Proto.Commands.{
  Command, connect_command, custom_event, CustomEvent, connect_type, command_type,
}
use revdial.Listener.State.{World, Listener}
use revdial.Listener.Accept.{accept_loop, accept_connection, handler_for, without_first}

module _ {S R : Type 0} (w : World S R) (parse_id : List ℕ → Option (List ℕ))
    (dialled : Option Conn) where
  -- The event has this handler, and does not pass for a connect command.
  abbrev pub Handles : Listener S → ℕ × CustomEvent → Type 0
  Handles l (handler, event) =
      (str_eq event.name connect_type ≡ false)
      × (handler_for w event.name l.settings.handlers ≡ some handler)

  abbrev pub events : List (ℕ × CustomEvent) → List Command
  events hs = map (λ h. custom_event h.1) hs

  call_one :
      (pick : ℕ → Bool) (handler : ℕ) (event : CustomEvent) (cmds : List Command) (l : Listener S)
      → l.cancelled ≡ false
      → Handles l (handler, event)
      → accept_loop w parse_id dialled pick (custom_event event ∷ cmds) l
        ≡ accept_loop w parse_id dialled
            (λ n. pick (suc n))
            cmds
            (record (without_first w parse_id dialled cmds l) {
              handled = l.handled ++ (handler, event) ∷ [];
            })
  unfolding accept_loop command_type
  call_one pick handler event cmds l h a = simp (h, a.0, a.1)

  -- While the listener's context is live, `Accept` calls the handlers of the events that come before
  -- the first connect command, each with its event and in their order, and no other, then goes on
  -- with that command's connection; the commands behind it stay in the channel.
  pub accept-events :
      (pick : ℕ → Bool) (hs : List (ℕ × CustomEvent)) (id : List ℕ) (rest : List Command)
      (l : Listener S)
      → l.cancelled ≡ false
      → All (Handles l) hs
      → accept_loop w parse_id dialled pick (events hs ++ connect_command id ∷ rest) l
        ≡ accept_connection w dialled id
            (without_first w parse_id dialled rest (record l { handled = l.handled ++ hs }))
  unfolding accept_loop command_type
  accept-events pick [] id rest l h a = simp (h, append-nil) refl
  accept-events pick ((handler, event) ∷ hs) id rest l h a =
      let cmds = events hs ++ connect_command id ∷ rest in
      let next : Listener S = record (without_first w parse_id dialled cmds l) {
        handled = l.handled ++ (handler, event) ∷ [];
      } in
      call_one pick handler event cmds l h a.0
      ∙ accept-events (λ n. pick (suc n)) hs id rest next h a.1
      ∙ ap
          (λ all.
            accept_connection w dialled id
              (without_first w parse_id dialled rest (record l { handled = all })))
          (append_assoc l.handled ((handler, event) ∷ []) hs)

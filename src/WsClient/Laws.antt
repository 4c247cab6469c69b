-- ===== src/WsClient/Laws.antt =====
-- Who is called.
use github_idea_os_app.Base.{
  ℕ, String, ◌≡◌, refl, inl, inr, true, false, not, ◌&&◌, ◌||◌, List, [], ◌∷◌, arith, Bool-cases,
  Option-cases, ◌==◌, string_eq, nat_eq, option_eq, get_or, any-append, includes,
}
use github_idea_os_app.Base.Dict.{get, get-set}
use github_idea_os_app.WsClient.{
  WsClient, set_add, set_delete, on_open, on_message, on_close, connect, disconnect, on, off,
}

includes-set_add : (h g : ℕ) (hs : List ℕ) → includes (set_add h hs) g ≡ (h == g || includes hs g)
unfolding set_add
includes-set_add h g hs = elim (Bool-cases (includes hs h)) [
  | inl e ↦ rw (set_add, e) (present hs e)
  | inr e ↦ rw (set_add, e, any-append (λ x. x == g) hs (h ∷ [])) (ground arith)
]
  where
    present : (hs : List ℕ) → includes hs h ≡ true → includes hs g ≡ (h == g || includes hs g)
    present [] e = cc
    present (x ∷ hs) e = ground (arith, present hs)

includes-set_delete :
    (h g : ℕ) (hs : List ℕ) → includes (set_delete h hs) g ≡ (not (h == g) && includes hs g)
unfolding set_delete
includes-set_delete h g [] = ground arith
includes-set_delete h g (x ∷ hs) = ground (arith, includes-set_delete h g hs)

-- The handlers of an event.
abbrev pub handlers_of : String → WsClient → List ℕ
handlers_of event c = get_or (get event c.handlers) []

-- A handler that is registered for an event is called for it, and no other is added, nor any for
-- another event.
pub handlers_of-on :
    (event : String) (h : ℕ) (c : WsClient) (other : String) (g : ℕ)
    → includes (handlers_of other (on event h c)) g
      ≡ ((event == other && h == g) || includes (handlers_of other c) g)
unfolding on
handlers_of-on event h c other g =
    rw (on, get-set event other (set_add h (handlers_of event c)) c.handlers)
      (ground (arith, includes-set_add h g (handlers_of event c)))

-- The function that `on` returns takes that handler away for that event, and nothing else.
pub handlers_of-off :
    (event : String) (h : ℕ) (c : WsClient) (other : String) (g : ℕ)
    → includes (handlers_of other (off event h c)) g
      ≡ (not (event == other && h == g) && includes (handlers_of other c) g)
unfolding off
handlers_of-off event h c other g = elim (Option-cases (get event c.handlers)) [
  | inl e ↦ rw (off, e) (ground (arith, e))
  | inr (hs, e) ↦
      rw (off, e, get-set event other (set_delete h hs) c.handlers)
        (ground (arith, e, includes-set_delete h g hs))
]

-- A client that was disconnected calls nobody: not for any message, and not when it is connected
-- the next time.
disconnect_silent :
    (type : String) (c : WsClient)
    → (on_message type (disconnect c) ≡ [])
      × ((on_open (connect (disconnect c))).1 ≡ [])
      × ((disconnect c).reconnect_timer ≡ false)
unfolding disconnect on_message on_open connect get
disconnect_silent type c = (refl, refl, refl)

-- The callbacks of a reconnection are called from the second opening on, and not at the first.
on_open-on_close :
    (c : WsClient)
    → c.has_connected_before ≡ false
    → ((on_open (connect c)).1 ≡ [])
      × ((on_open (connect (on_close (on_open (connect c)).0))).1 ≡ c.on_reconnect_callbacks)
unfolding on_open on_close connect
on_open-on_close c h = (rw h, refl)

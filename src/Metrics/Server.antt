-- ===== src/Metrics/Server.antt =====
-- `Serve` of daemon/internal/metrics/server.go. The file system, the package net and the HTTP server
-- are parameters over a world `W`; the mode is a number.
use nixos_wanwatch.Prelude.{
  ℕ, suc, ◌≡◌, refl, ◌∙◌, Bool, true, false, Option, none, some, String, Result, ok, err, ◌==◌,
  if◌then◌else◌, if_holds,
}
use nixos_wanwatch.Prelude.Text.{str_eq}

-- 0o660
abbrev pub default_socket_mode : ℕ
default_socket_mode = 432

pub record Server : Type 0 where
  pub socket : String
  pub mode : ℕ
  pub has_handler : Bool

-- `joined` is `errors.Join` of the cancellation and what the HTTP server returned.
pub data ServeError (E : Type 0) : Type 0 where
  empty_socket nil_handler : ServeError E
  listen_failed chmod_failed : E → ServeError E
  serve_failed : E → ServeError E
  joined : Option E → ServeError E

-- `serve` runs the HTTP server on the listener until the context is cancelled, when it is shut down,
-- or until it fails; it says which, and what the server returned, where ErrServerClosed is `none`.
pub record System (W L E : Type 0) : Type 0 where
  pub remove : String → W → W
  pub listen : String → W → Result E L × W
  pub chmod : String → ℕ → W → Option E × W
  pub close_listener : L → W → W
  pub serve : L → W → Bool × Option E × W

module _ {W L E : Type 0} (sys : System W L E) where
  abbrev pub Served : Type 0
  Served = Option (ServeError E) × W

  abbrev returned : Bool × Option E × W → Served
  returned (true, e, w) = (some (joined e), w)
  returned (false, none, w) = (none, w)
  returned (false, some e, w) = (some (serve_failed e), w)

  abbrev permitted : L → Option E × W → Served
  permitted l (some e, w) = (some (chmod_failed e), sys.close_listener l w)
  permitted l (none, w) = returned (sys.serve l w)

  abbrev pub mode_of : Server → ℕ
  mode_of s = if s.mode == 0 then default_socket_mode else s.mode

  abbrev listening : Server → Result E L × W → Served
  listening s (err e, w) = (some (listen_failed e), w)
  listening s (ok l, w) = permitted l (sys.chmod s.socket (mode_of s) w)

  -- `none` is a return without an error.
  unfoldable pub serve : Server → W → Served
  serve s w =
      let run = listening s (sys.listen s.socket (sys.remove s.socket w)) in
      if str_eq s.socket ""
      then (some empty_socket, w)
      else if s.has_handler
      then run
      else (some nil_handler, w)

  -- What the packages promise: a listen that succeeds opens a listener, which a close ends, as does the
  -- HTTP server before it returns.
  pub record Counts (listeners : W → ℕ) : Type 0 where
    pub remove_keeps : (p : String) (w : W) → listeners (sys.remove p w) ≡ listeners w
    pub listen_opens :
        (p : String) (w w' : W) (l : L)
        → sys.listen p w ≡ (ok l, w')
        → listeners w' ≡ suc (listeners w)
    pub listen_fails :
        (p : String) (w w' : W) (e : E) → sys.listen p w ≡ (err e, w') → listeners w' ≡ listeners w
    pub chmod_keeps : (p : String) (m : ℕ) (w : W) → listeners (sys.chmod p m w).1 ≡ listeners w
    pub close_ends :
        (l : L) (w : W) (n : ℕ) → listeners w ≡ suc n → listeners (sys.close_listener l w) ≡ n
    pub serve_ends : (l : L) (w : W) (n : ℕ) → listeners w ≡ suc n → listeners (sys.serve l w).2 ≡ n

  module _ {listeners : W → ℕ} (k : Counts listeners) where
    returned_keeps : (x : Bool × Option E × W) → listeners (returned x).1 ≡ listeners x.2
    returned_keeps (true, e, w) = refl
    returned_keeps (false, none, w) = refl
    returned_keeps (false, some e, w) = refl

    permitted_ends :
        (l : L) (x : Option E × W) (n : ℕ) → listeners x.1 ≡ suc n → listeners (permitted l x).1 ≡ n
    permitted_ends l (some e, w) n h = k.close_ends l w n h
    permitted_ends l (none, w) n h = returned_keeps (sys.serve l w) ∙ k.serve_ends l w n h

    listening_ends :
        (s : Server) (w : W) (x : Result E L × W)
        → sys.listen s.socket w ≡ x
        → listeners (listening s x).1 ≡ listeners w
    listening_ends s w (err e, w') h = k.listen_fails s.socket w w' e h
    listening_ends s w (ok l, w') h =
        permitted_ends l (sys.chmod s.socket (mode_of s) w') (listeners w)
          (k.chmod_keeps s.socket (mode_of s) w' ∙ k.listen_opens s.socket w w' l h)

    -- However `Serve` returns, at a check, at the listener, at its mode, by a cancellation or by a
    -- failure of the HTTP server, it leaves as many listeners as there were.
    pub serve-listeners : (s : Server) (w : W) → listeners (serve s w).1 ≡ listeners w
    unfolding serve
    serve-listeners s w =
        if_holds (λ (x : Served). listeners x.1 ≡ listeners w) (str_eq s.socket "") (λ e. refl)
          (λ e.
            if_holds (λ (x : Served). listeners x.1 ≡ listeners w) s.has_handler
              (λ f.
                listening_ends s (sys.remove s.socket w)
                  (sys.listen s.socket (sys.remove s.socket w)) refl
                ∙ k.remove_keeps s.socket w)
              (λ f. refl))

-- ===== src/Sim/Sockets.antt =====
-- The listening side of sim/socket_transport.cpp and sim/sim_control_server.cpp: what the system calls
-- give is an argument, and what is called comes out. A descriptor is its number.
use agentic_engineering_trai.Base.{
  ℕ, List, [], ◌∷◌, ◌++◌, Bool, true, false, not, ◌||◌, Option, none, some, leb, if◌then◌else◌,
  length, ◌≡◌, refl, branch,
}

-- What `lstat` finds: an entry that is a socket or not, and the user's or not; no entry; or an error.
pub data Found : Type 0 where
  entry : Bool → Bool → Found
  missing unreadable : Found

-- The results of the calls: the descriptor of `socket`, and whether the others succeed.
pub record Calls : Type 0 where
  pub socket : Option ℕ
  pub found : Found
  pub unlinks : Bool
  pub binds : Bool
  pub listens : Bool
  pub connects : Bool
  pub configures : Bool

-- The calls that leave a trace.
pub data SocketCall : Type 0 where
  opened closed : ℕ → SocketCall
  unlinked bound : SocketCall

-- The descriptor that is kept, and the calls.
pub record Opening : Type 0 where
  pub kept : Option ℕ
  pub calls : List SocketCall

-- The size of `sun_path` on Linux.
abbrev pub path_size : ℕ
path_size = 108

abbrev pub refuse_path : Opening
refuse_path = record { kept = none; calls = [] }

abbrev pub close_after : ℕ → List SocketCall → Opening
close_after fd calls = record { kept = none; calls = calls ++ closed fd ∷ [] }

abbrev pub bind_socket : ℕ → Calls → List SocketCall → Opening
bind_socket fd c calls =
    if not c.binds || not c.listens
    then close_after fd (calls ++ bound ∷ [])
    else if not c.configures
    then close_after fd (calls ++ bound ∷ [])
    else record { kept = some fd; calls = calls ++ bound ∷ [] }

abbrev pub replace_entry : ℕ → Found → Calls → Opening
replace_entry fd (entry is_socket is_own) c =
    if not is_socket || not is_own
    then close_after fd (opened fd ∷ [])
    else if not c.unlinks
    then close_after fd (opened fd ∷ unlinked ∷ [])
    else bind_socket fd c (opened fd ∷ unlinked ∷ [])
replace_entry fd missing c = bind_socket fd c (opened fd ∷ [])
replace_entry fd unreadable c = close_after fd (opened fd ∷ [])

abbrev pub listen_with : Option ℕ → Calls → Opening
listen_with none c = refuse_path
listen_with (some fd) c = replace_entry fd c.found c

-- `SocketTransport::listen_on`; none is a null path.
unfoldable pub listen_on : Option (List ℕ) → Calls → Opening
listen_on none c = refuse_path
listen_on (some path) c =
    if leb path_size (length path) then refuse_path else listen_with c.socket c

-- `SimControlServer::listen_on`
unfoldable pub listen_control : Option (List ℕ) → Bool → Calls → Opening
listen_control none has_board c = refuse_path
listen_control (some path) has_board c =
    if not has_board || leb path_size (length path) then refuse_path else listen_with c.socket c

abbrev pub connect_with : Option ℕ → Calls → Opening
connect_with none c = refuse_path
connect_with (some fd) c =
    if not c.connects
    then close_after fd (opened fd ∷ [])
    else if not c.configures
    then close_after fd (opened fd ∷ [])
    else record { kept = some fd; calls = opened fd ∷ [] }

-- `SocketTransport::connect_to`
unfoldable pub connect_to : Option (List ℕ) → Calls → Opening
connect_to none c = refuse_path
connect_to (some path) c =
    if leb path_size (length path) then refuse_path else connect_with c.socket c

-- What the calls leave: the descriptor that was opened is kept or closed, and nothing but a socket of
-- the user's was unlinked.
pub data IsTidy (found : Found) : Opening → Type 0 where
  unopened : IsTidy found (record { kept = none; calls = [] })
  kept_new : {fd : ℕ} → IsTidy found (record { kept = some fd; calls = opened fd ∷ [] })
  kept_bound :
      {fd : ℕ}
      → found ≡ missing
      → IsTidy found (record { kept = some fd; calls = opened fd ∷ bound ∷ [] })
  kept_replaced :
      {fd : ℕ}
      → found ≡ entry true true
      → IsTidy found (record { kept = some fd; calls = opened fd ∷ unlinked ∷ bound ∷ [] })
  closed_new : {fd : ℕ} → IsTidy found (record { kept = none; calls = opened fd ∷ closed fd ∷ [] })
  closed_bound :
      {fd : ℕ}
      → found ≡ missing
      → IsTidy found (record { kept = none; calls = opened fd ∷ bound ∷ closed fd ∷ [] })
  closed_unlinked :
      {fd : ℕ}
      → found ≡ entry true true
      → IsTidy found (record { kept = none; calls = opened fd ∷ unlinked ∷ closed fd ∷ [] })
  closed_replaced :
      {fd : ℕ}
      → found ≡ entry true true
      → IsTidy found (record { kept = none; calls = opened fd ∷ unlinked ∷ bound ∷ closed fd ∷ [] })

replace_entry-IsTidy : (fd : ℕ) (f : Found) (c : Calls) → IsTidy f (replace_entry fd f c)
replace_entry-IsTidy fd missing c =
    branch (IsTidy missing) (not c.binds || not c.listens) (λ e. closed_bound refl)
      (λ e.
        branch (IsTidy missing) (not c.configures) (λ k. closed_bound refl) (λ k. kept_bound refl))
replace_entry-IsTidy fd unreadable c = closed_new
replace_entry-IsTidy fd (entry false own) c = closed_new
replace_entry-IsTidy fd (entry true false) c = closed_new
replace_entry-IsTidy fd (entry true true) c =
    branch (IsTidy (entry true true)) (not c.unlinks) (λ e. closed_unlinked refl)
      (λ e.
        branch (IsTidy (entry true true)) (not c.binds || not c.listens) (λ k. closed_replaced refl)
          (λ k.
            branch (IsTidy (entry true true)) (not c.configures) (λ l. closed_replaced refl)
              (λ l. kept_replaced refl)))

listen_with-IsTidy : (o : Option ℕ) (c : Calls) → IsTidy c.found (listen_with o c)
listen_with-IsTidy none c = unopened
listen_with-IsTidy (some fd) c = replace_entry-IsTidy fd c.found c

-- Whatever the system calls give, `listen_on` closes the descriptor that it opened or keeps it, and
-- it unlinks only an entry that `lstat` shows to be a socket of the user's own.
pub listen_on-IsTidy : (path : Option (List ℕ)) (c : Calls) → IsTidy c.found (listen_on path c)
unfolding listen_on
listen_on-IsTidy none c = unopened
listen_on-IsTidy (some path) c =
    branch (IsTidy c.found) (leb path_size (length path)) (λ e. unopened)
      (λ e. listen_with-IsTidy c.socket c)

-- ===== src/Tls/Owned.antt =====
-- src/net/ssl.cpp: what a client holds, through `Init`, `Connect` and `Close`.
use titan_bench.Base.{
  ℕ, ◌≡◌, refl, sym, subst, ◌∙◌, Bool, true, false, ◌∷◌, Option, none, some, ℤ, if_holds, at_least,
}
use titan_bench.Net.Commands.{Endpoint}
use titan_bench.Tls.Wait.{Failure, Return, returns, going_on}
use titan_bench.Tls.Client.{
  SslOptions, Client, new_client, with_held, close, InitAnswer, init, TcpAnswer, with_socket,
  resolve_endpoint, connect_tcp, ConnectAnswer, after_handshake, with_object, after_tcp, after_init,
  connect,
}

-- Ready to send: only with an object and a descriptor.
abbrev pub Ready : Bool → Option ℕ → Option ℕ → Type 0
Ready false ssl fd = Unit
Ready true (some ssl) (some fd) = Unit
Ready true _ _ = ⊥

-- Everything opened is held or closed, everything made is held or freed, a client is initialized
-- exactly when it has a context, and connected only with an object and a descriptor.
pub record Owned (c : Client) : Type 0 where
  pub descriptors : c.opened ≡ with_held c.fd c.closed
  pub objects : c.made ≡ with_held c.ssl c.freed
  pub context : c.ctx ≡ c.initialized
  pub ready : Ready c.connected c.ssl c.fd

-- A client that holds nothing, as `Close` leaves it.
pub record Idle (c : Client) : Type 0 where
  pub owned : Owned c
  pub no_fd : c.fd ≡ none
  pub no_object : c.ssl ≡ none
  pub apart : c.connected ≡ false

pub close-Idle : (c : Client) → Owned c → Idle (close c)
unfolding close
close-Idle c o = record {
  owned = record {
    descriptors = o.descriptors;
    objects = o.objects;
    context = o.context;
    ready = tt;
  };
  no_fd = refl;
  no_object = refl;
  apart = refl;
}

-- A step that leaves the connection alone.
record Aside (c d : Client) : Type 0 where
  owned : Owned d
  fd : d.fd ≡ c.fd
  object : d.ssl ≡ c.ssl
  connected : d.connected ≡ c.connected

with_context : (c : Client) (b : Bool) → Owned c → Aside c (record c { ctx = b; initialized = b })
with_context c b o = record {
  owned = record {
    descriptors = o.descriptors;
    objects = o.objects;
    context = refl;
    ready = o.ready;
  };
  fd = refl;
  object = refl;
  connected = refl;
}

init-Aside : (a : InitAnswer) (c : Client) → Owned c → Aside c (init a c).0
unfolding init
init-Aside a c o =
    let same : Aside c c = record { owned = o; fd = refl; object = refl; connected = refl } in
    if_holds (λ (r : Client × Option Failure). Aside c r.0) c.initialized _ _ (λ _. same)
      (λ bare.
        if_holds (λ (r : Client × Option Failure). Aside c r.0) a.started _ _
          (λ _.
            if_holds (λ (r : Client × Option Failure). Aside c r.0) a.context _ _
              (λ _. with_context c true o)
              (λ _.
                subst (λ b. Aside c (record c { ctx = false; initialized = b })) (sym bare)
                  (with_context c false o)))
          (λ _. same))

pub init-Owned : (a : InitAnswer) (c : Client) → Owned c → Owned (init a c).0
init-Owned a c o = (init-Aside a c o).owned

init-Idle : (a : InitAnswer) (c : Client) → Idle c → Idle (init a c).0
init-Idle a c i =
    let k = init-Aside a c i.owned in
    record {
      owned = k.owned;
      no_fd = k.fd ∙ i.no_fd;
      no_object = k.object ∙ i.no_object;
      apart = k.connected ∙ i.apart;
    }

-- A step that succeeded has left a descriptor.
abbrev Through : Option Failure → Option ℕ → Type 0
Through none none = ⊥
Through _ _ = Unit

through : (o : Option Failure) (fd : ℕ) → Through o (some fd)
through none fd = tt
through (some f) fd = tt

-- A descriptor may be there, and is after a success, but no object yet.
record Dialed (r : Client × Option Failure) : Type 0 where
  owned : Owned r.0
  no_object : r.0.ssl ≡ none
  apart : r.0.connected ≡ false
  through : Through r.1 r.0.fd

dialed : (c : Client) (f : Failure) → Idle c → Dialed (c, some f)
dialed c f i = record { owned = i.owned; no_object = i.no_object; apart = i.apart; through = tt }

with_socket-Dialed :
    (a : TcpAnswer) (c : Client) (o : Option ℕ) → Idle c → Dialed (with_socket a c o)
unfolding with_socket
with_socket-Dialed a c none i = record {
  owned = record {
    descriptors = rw i.owned.descriptors (rw i.no_fd refl);
    objects = i.owned.objects;
    context = i.owned.context;
    ready = rw i.apart tt;
  };
  no_object = i.no_object;
  apart = i.apart;
  through = tt;
}
with_socket-Dialed a c (some fd) i = record {
  owned = record {
    descriptors = rw i.owned.descriptors (rw i.no_fd refl);
    objects = i.owned.objects;
    context = i.owned.context;
    ready = rw i.apart tt;
  };
  no_object = i.no_object;
  apart = i.apart;
  through = through _ fd;
}

connect_tcp-Dialed :
    (e : Endpoint) (timeout_ms : ℤ) (a : TcpAnswer) (c : Client)
    → Idle c
    → Dialed (connect_tcp e timeout_ms a c)
unfolding connect_tcp
connect_tcp-Dialed e timeout_ms a c i =
    if_holds Dialed (at_least 1 timeout_ms) _ _
      (λ _.
        if_holds Dialed (resolve_endpoint e a.resolved) _ _ (λ _. with_socket-Dialed a c a.socket i)
          (λ _. dialed c _ i))
      (λ _. dialed c _ i)

abbrev OwnedAfter {ℓ} : {A : Type ℓ} → Client × A → Type 0
OwnedAfter r = Owned r.0

connected-Ready : (c : Client) (ssl : ℕ) → Through none c.fd → Ready true (some ssl) c.fd
connected-Ready c ssl h = at_fd c.fd h
  where
    at_fd : (fd : Option ℕ) → Through none fd → Ready true (some ssl) fd
    at_fd none h = h
    at_fd (some fd) h = tt

after_handshake-Owned :
    (c : Client) (r : Return (Option Failure))
    → Owned c
    → Ready true c.ssl c.fd
    → OwnedAfter (after_handshake c r)
unfolding after_handshake
after_handshake-Owned c (returns none) o h = record {
  descriptors = o.descriptors;
  objects = o.objects;
  context = o.context;
  ready = h;
}
after_handshake-Owned c (returns (some f)) o h = (close-Idle c o).owned
after_handshake-Owned c going_on o h = o

with_object-Owned :
    (op : SslOptions) (a : ConnectAnswer) (c : Client) (o : Option ℕ)
    → Dialed (c, none)
    → OwnedAfter (with_object op a c o)
unfolding with_object
with_object-Owned op a c none d =
    (close-Idle (record c { ssl = none })
      (record {
        descriptors = d.owned.descriptors;
        objects = rw d.owned.objects (rw d.no_object refl);
        context = d.owned.context;
        ready = rw d.apart tt;
      })).owned
with_object-Owned op a c (some ssl) d =
    let o : Owned (record c { ssl = some ssl; made = ssl ∷ c.made }) = record {
      descriptors = d.owned.descriptors;
      objects = rw d.owned.objects (rw d.no_object refl);
      context = d.owned.context;
      ready = rw d.apart tt;
    } in
    if_holds OwnedAfter a.set_fd _ _
      (λ _. after_handshake-Owned _ _ o (connected-Ready c ssl d.through))
      (λ _. (close-Idle _ o).owned)

after_tcp-Owned :
    (op : SslOptions) (a : ConnectAnswer) (r : Client × Option Failure)
    → Dialed r
    → OwnedAfter (after_tcp op a r)
unfolding after_tcp
after_tcp-Owned op a (c, none) d = with_object-Owned op a c a.object d
after_tcp-Owned op a (c, some f) d = d.owned

after_init-Owned :
    (op : SslOptions) (a : ConnectAnswer) (r : Client × Option Failure)
    → Idle r.0
    → OwnedAfter (after_init op a r)
unfolding after_init
after_init-Owned op a (c, some f) i = i.owned
after_init-Owned op a (c, none) i = after_tcp-Owned op a _ (
    connect_tcp-Dialed op.endpoint op.connect_timeout_ms a.tcp _ (record {
      owned = record {
        descriptors = i.owned.descriptors;
        objects = i.owned.objects;
        context = i.owned.context;
        ready = i.owned.ready;
      };
      no_fd = i.no_fd;
      no_object = i.no_object;
      apart = i.apart;
    }))

pub connect-Owned :
    (op : SslOptions) (a : ConnectAnswer) (c : Client) → Owned c → Owned (connect op a c).0
unfolding connect
connect-Owned op a c o = after_init-Owned op a _ (init-Idle a.init _ (close-Idle c o))

pub new_client-Owned : Owned new_client
new_client-Owned = record { descriptors = refl; objects = refl; context = refl; ready = tt }

-- ===== src/Net/Linked.antt =====
-- src/net/network.cpp: the two maps of the connections, and `RemoveConnection`.
use titan_bench.Base.{
  ℕ, ◌≡◌, ◌≢◌, refl, sym, subst, ◌∙◌, true, List, [], ◌∷◌, Option, none, some, ◌==◌, All, arith,
  Bool-cases, Option-cases, inl, inr, find_key, erase_key, put_key, find_key-erase_key_ne,
  find_key-put_key, find_key-put_key_ne,
}
use titan_bench.Net.Errors.{NetErrc}
use titan_bench.Net.Impl.{
  Connection, Impl, enter, forget_fd, report, remove_found, remove_connection,
}

-- The descriptor is the one of the connection that was found.
pub data LinkedTo (f : ℕ) : Option Connection → Type 0 where
  linked : (c : Connection) → c.fd ≡ some f → LinkedTo f (some c)

-- Each descriptor in `fd_to_conn` is the one of the connection it leads to.
abbrev pub LinkedIn : List (ℕ × Connection) → List (ℕ × ℕ) → Type 0
LinkedIn connections table = All (λ (e : ℕ × ℕ). LinkedTo e.0 (find_key e.1 connections)) table

abbrev pub Linked : Impl → Type 0
Linked m = LinkedIn m.connections m.fd_to_conn

-- A change of the connections that keeps each descriptor's link.
relink :
    (before after : List (ℕ × Connection)) (table : List (ℕ × ℕ))
    → ((f j : ℕ) → LinkedTo f (find_key j before) → LinkedTo f (find_key j after))
    → LinkedIn before table
    → LinkedIn after table
relink before after [] h l = tt
relink before after ((f, j) ∷ rest) h l = (h f j l.0, relink before after rest h l.1)

put_link :
    (id : ℕ) (c : Connection) (xs : List (ℕ × Connection)) (f j : ℕ)
    → ((f : ℕ) → LinkedTo f (find_key id xs) → c.fd ≡ some f)
    → LinkedTo f (find_key j xs)
    → LinkedTo f (find_key j (put_key id c xs))
put_link id c xs f j h l = elim (Bool-cases (id == j)) [
  | inl same ↦
      let e : id ≡ j = ground arith in
      subst (λ k. LinkedTo f (find_key k (put_key id c xs))) e
        (subst (λ o. LinkedTo f o) (sym (find_key-put_key id c xs))
          (linked c (h f (subst (λ k. LinkedTo f (find_key k xs)) (sym e) l))))
  | inr other ↦
      let ne : id ≢ j = ground arith in
      subst (λ o. LinkedTo f o) (sym (find_key-put_key_ne j id c xs ne)) l
]

-- A connection is stored, with the descriptor of the one it replaces, if there was one.
pub enter-Linked :
    (id : ℕ) (c : Connection) (m : Impl)
    → ((f : ℕ) → LinkedTo f (find_key id m.connections) → c.fd ≡ some f)
    → Linked m
    → Linked (enter id c m)
enter-Linked id c m h l =
    relink m.connections (put_key id c m.connections) m.fd_to_conn
      (λ f j k. put_link id c m.connections f j h k) l

erase_link :
    (id f j : ℕ) (xs : List (ℕ × Connection))
    → id ≢ j
    → LinkedTo f (find_key j xs)
    → LinkedTo f (find_key j (erase_key id xs))
erase_link id f j xs ne l = subst (λ o. LinkedTo f o) (sym (find_key-erase_key_ne j id xs ne)) l

-- What a link to a connection says of its descriptor.
pub link_fd : (f : ℕ) (c : Connection) → LinkedTo f (some c) → c.fd ≡ some f
link_fd f c (linked _ e) = e

some-inj : (a b : ℕ) → some a ≡ some b → a ≡ b
some-inj a b h = ground arith

==-refl : (a : ℕ) → (a == a) ≡ true
==-refl a = ground arith

-- The connection and its descriptor go together.
erase_both :
    (id fd : ℕ) (c : Connection) (xs : List (ℕ × Connection)) (table : List (ℕ × ℕ))
    → find_key id xs ≡ some c
    → c.fd ≡ some fd
    → LinkedIn xs table
    → LinkedIn (erase_key id xs) (erase_key fd table)
erase_both id fd c xs [] found has l = tt
erase_both id fd c xs ((f, j) ∷ rest) found has l = elim (Bool-cases (f == fd)) [
  | inl same ↦ rw same (erase_both id fd c xs rest found has l.1)
  | inr other ↦
      let ne : id ≢ j = λ e.
        let back : LinkedTo f (some c) =
          subst (λ o. LinkedTo f o) found (subst (λ k. LinkedTo f (find_key k xs)) (sym e) l.0) in
        let eq : some f ≡ some fd = sym (link_fd f c back) ∙ has in
        absurd (cc (some-inj f fd eq, other, ==-refl f)) in
      rw other (erase_link id f j xs ne l.0, erase_both id fd c xs rest found has l.1)
]

-- A connection without a descriptor goes.
erase_bare :
    (id : ℕ) (c : Connection) (xs : List (ℕ × Connection)) (table : List (ℕ × ℕ))
    → find_key id xs ≡ some c
    → c.fd ≡ none
    → LinkedIn xs table
    → LinkedIn (erase_key id xs) table
erase_bare id c xs [] found has l = tt
erase_bare id c xs ((f, j) ∷ rest) found has l =
    let ne : id ≢ j = λ e.
      let back : LinkedTo f (some c) =
        subst (λ o. LinkedTo f o) found (subst (λ k. LinkedTo f (find_key k xs)) (sym e) l.0) in
      absurd (cc (link_fd f c back, has)) in
    (erase_link id f j xs ne l.0, erase_bare id c xs rest found has l.1)

report-Linked : (id : ℕ) (err : Option NetErrc) (m : Impl) → Linked m → Linked (report id err m)
unfolding report
report-Linked id none m l = l
report-Linked id (some e) m l = l

-- The record is the same with the two maps changed together.
abbrev without : ℕ → Impl → Impl
without id m = record m { connections = erase_key id m.connections }

forget-Linked :
    (id : ℕ) (err : Option NetErrc) (c : Connection) (fd : Option ℕ) (m : Impl)
    → find_key id m.connections ≡ some c
    → c.fd ≡ fd
    → Linked m
    → Linked (without id (report c.id err (forget_fd fd m)))
unfolding forget_fd report
forget-Linked id none c none m found has l = erase_bare id c m.connections m.fd_to_conn found has l
forget-Linked id (some e) c none m found has l =
    erase_bare id c m.connections m.fd_to_conn found has l
forget-Linked id none c (some fd) m found has l =
    erase_both id fd c m.connections m.fd_to_conn found has l
forget-Linked id (some e) c (some fd) m found has l =
    erase_both id fd c m.connections m.fd_to_conn found has l

pub remove_connection-Linked :
    (id : ℕ) (err : Option NetErrc) (m : Impl) → Linked m → Linked (remove_connection id err m)
unfolding remove_connection remove_found
remove_connection-Linked id err m l = elim (Option-cases (find_key id m.connections)) [
  | inl missing ↦ rw missing l
  | inr (c, found) ↦ rw found (forget-Linked id err c c.fd m found refl l)
]

-- ===== src/Rpc/Connections/Descriptors.antt =====
-- The descriptors of the connections of usr/src/lib/s16/rpc/rpc.c, and what adding and closing one does
-- to them.
use e_com_init.Common.{
  ℕ, suc, ◌≡◌, ◌≢◌, refl, ap, sym, subst, ◌∙◌, Bool, true, false, not, ◌&&◌, Option, none, some,
  List, [], ◌∷◌, ◌==◌, if◌then◌else◌, All, Bool-cases, inl, inr, arith,
}
use e_com_init.S16List.{
  list_add, list_add_if_absent, list_del, list_find, list_find_eq, find_from, list_it_val,
}
use e_com_init.S16List.Laws.{shift_some, list_find-cons}
use e_com_init.Rpc.Wire.{Conn, conn_new}
use e_com_init.Rpc.Connections.{find_conn, match_fd, put_conn}

abbrev pub fds : List Conn → List ℕ
fds [] = []
fds (c ∷ n) = c.fd ∷ fds n

abbrev pub AllDistinct : List ℕ → Type 0
AllDistinct [] = Unit
AllDistinct (x ∷ xs) = All (λ y. y ≢ x) xs × AllDistinct xs

pub fds-add : (n : List Conn) (c : Conn) → fds (list_add n c) ≡ list_add (fds n) c.fd
unfolding list_add
fds-add [] c = refl
fds-add (y ∷ n) c = ap (λ t. y.fd ∷ t) (fds-add n c)

pub fds-del :
    (n : List Conn) (c : Conn)
    → fds (list_del (λ a b. a.fd == b.fd) n c) ≡ list_del ◌==◌ (fds n) c.fd
unfolding list_del
fds-del [] c = refl
fds-del (y ∷ n) c = ground (arith, fds-del n c)

pub fds-put : (n : List Conn) (c : Conn) → fds (put_conn n c) ≡ fds n
unfolding put_conn
fds-put [] c = refl
fds-put (y ∷ n) c = ground (arith, fds-put n c)

pub All-add : (P : ℕ → Type 0) (xs : List ℕ) (x : ℕ) → All P xs → P x → All P (list_add xs x)
unfolding list_add
All-add P [] x h hx = (hx, tt)
All-add P (y ∷ xs) x h hx = (h.0, All-add P xs x h.1 hx)

pub All-del : (P : ℕ → Type 0) (xs : List ℕ) (x : ℕ) → All P xs → All P (list_del ◌==◌ xs x)
unfolding list_del
All-del P [] x h = tt
All-del P (y ∷ xs) x h = elim (Bool-cases (y == x)) [
  | inl e ↦ rw e h.1
  | inr e ↦ rw e (h.0, All-del P xs x h.1)
]

pub add-AllDistinct :
    (xs : List ℕ) (x : ℕ) → AllDistinct xs → All (λ y. y ≢ x) xs → AllDistinct (list_add xs x)
unfolding list_add
add-AllDistinct [] x d h = (tt, tt)
add-AllDistinct (y ∷ xs) x d h =
    (All-add (λ z. z ≢ y) xs x d.0 (λ e. h.0 (sym e)), add-AllDistinct xs x d.1 h.1)

pub del-AllDistinct : (xs : List ℕ) (x : ℕ) → AllDistinct xs → AllDistinct (list_del ◌==◌ xs x)
unfolding list_del
del-AllDistinct [] x d = tt
del-AllDistinct (y ∷ xs) x d = elim (Bool-cases (y == x)) [
  | inl e ↦ rw e d.1
  | inr e ↦ rw e (All-del (λ z. z ≢ y) xs x d.0, del-AllDistinct xs x d.1)
]

pub find_from-absent :
    (k : ℕ) (xs : List ℕ) (x : ℕ) → All (λ y. y ≢ x) xs → find_from k (λ y. y == x) xs ≡ none
unfolding find_from
find_from-absent k [] x h = refl
find_from-absent k (y ∷ xs) x h = ground (arith, find_from-absent (suc k) xs x h.1, h.0)

pub add_if_absent-new :
    (xs : List ℕ) (x : ℕ) → All (λ y. y ≢ x) xs → list_add_if_absent ◌==◌ xs x ≡ list_add xs x
unfolding list_add_if_absent list_find_eq list_find
add_if_absent-new xs x h = rw (find_from-absent 0 xs x h, list_add_if_absent) refl

pub it_val-shift :
    (x : Conn) (n : List Conn) (i : Option ℕ) → list_it_val (x ∷ n) (shift_some i) ≡ list_it_val n i
unfolding list_it_val
it_val-shift x n none = refl
it_val-shift x [] (some i) = refl
it_val-shift x (y ∷ n) (some i) = refl

pub find_conn-cons :
    (y : Conn) (n : List Conn) (fd : ℕ)
    → find_conn (y ∷ n) fd ≡ (if y.fd == fd then some y else find_conn n fd)
unfolding find_conn match_fd
find_conn-cons y n fd = elim (Bool-cases (y.fd == fd)) [
  | inl e ↦ rw (list_find-cons y n (λ a. a.fd == fd), e) refl
  | inr e ↦ rw (list_find-cons y n (λ a. a.fd == fd), e) (it_val-shift y n _)
]

pub find_conn-nil : (fd : ℕ) → find_conn [] fd ≡ none
unfolding find_conn
find_conn-nil fd = refl

pub some_injective : (a b : Conn) → some a ≡ some b → a ≡ b
some_injective a b e = cc

-- A connection that is found has the descriptor, which is then one of the connections'.
pub find_conn-some :
    (n : List Conn) (fd : ℕ) (c : Conn)
    → find_conn n fd ≡ some c
    → (c.fd ≡ fd) × ((P : ℕ → Type 0) → All P (fds n) → P fd)
find_conn-some [] fd c h = absurd (cc (h, find_conn-nil fd))
find_conn-some (y ∷ n) fd c h = elim (Bool-cases (y.fd == fd)) [
  | inl e ↦
      let same : y ≡ c = some_injective y c (rw (find_conn-cons y n fd, e) at h) in
      let here : y.fd ≡ fd = ground arith in
      (ap (λ t. t.fd) (sym same) ∙ here, λ P all. subst P here all.0)
  | inr e ↦
      let (at_fd, inside) = find_conn-some n fd c (rw (find_conn-cons y n fd, e) at h) in
      (at_fd, λ P all. inside P all.1)
]

pub close_fds :
    (is_client : Bool) (own : ℕ) (conns : List Conn) (c : Conn) (fd : ℕ)
    → find_conn conns fd ≡ some c
    → AllDistinct (if is_client then fds conns else own ∷ fds conns)
    → (if is_client
        then fds (list_del (λ a b. a.fd == b.fd) conns c)
        else own ∷ fds (list_del (λ a b. a.fd == b.fd) conns c))
      ≡ list_del ◌==◌ (if is_client then fds conns else own ∷ fds conns) fd
unfolding list_del
close_fds true own conns c fd h d =
    fds-del conns c ∙ ap (list_del ◌==◌ (fds conns)) (find_conn-some conns fd c h).0
close_fds false own conns c fd h d =
    let (at_fd, inside) = find_conn-some conns fd c h in
    let apart : (own == fd) ≡ false = ground (arith, inside (λ y. y ≢ own) d.0) in
    rw apart (ap (λ t. own ∷ t) (fds-del conns c ∙ ap (list_del ◌==◌ (fds conns)) at_fd))

-- A connection that is found is not the socket that a server listens on.
pub listening_apart :
    (is_client : Bool) (own : ℕ) (conns : List Conn) (c : Conn) (fd : ℕ)
    → find_conn conns fd ≡ some c
    → AllDistinct (if is_client then fds conns else own ∷ fds conns)
    → (not is_client && fd == own) ≡ false
listening_apart true own conns c fd h d = refl
listening_apart false own conns c fd h d =
    ground (arith, (find_conn-some conns fd c h).1 (λ y. y ≢ own) d.0)

pub add_fds :
    (is_client : Bool) (own : ℕ) (conns : List Conn) (fd : ℕ)
    → (if is_client
        then fds (list_add conns (conn_new fd))
        else own ∷ fds (list_add conns (conn_new fd)))
      ≡ list_add (if is_client then fds conns else own ∷ fds conns) fd
unfolding list_add conn_new
add_fds true own conns fd = fds-add conns (conn_new fd)
add_fds false own conns fd = ap (λ t. own ∷ t) (fds-add conns (conn_new fd))

pub put_fds :
    (is_client : Bool) (own : ℕ) (conns : List Conn) (c : Conn)
    → (if is_client then fds (put_conn conns c) else own ∷ fds (put_conn conns c))
      ≡ (if is_client then fds conns else own ∷ fds conns)
put_fds true own conns c = fds-put conns c
put_fds false own conns c = ap (λ t. own ∷ t) (fds-put conns c)

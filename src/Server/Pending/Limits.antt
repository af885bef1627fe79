-- ===== src/Server/Pending/Limits.antt =====
-- The counters are the slots that are held, and stay within the limits.
use mathlib.Core.Path.{subst}
use wire_rift.Prelude.{
  ℕ, ◌+◌, ◌≤◌, ◌≡◌, refl, ap, true, leb, ◌||◌, if◌then◌else◌, if_split, List, [], ◌∷◌, ◌++◌, Option,
  none, some, arith, Bytes, eq_bytes, eq_bytes-eq,
}
use wire_rift.Server.Pending.{
  PendingConns, Release, max_pending_control_conns, max_pending_control_conns_per_ip, is_full,
  acquire_ip, acquire, counted_ip, release,
}

-- The slots that are held, among the release functions handed out: all, and those of an address.
abbrev pub live : List Release → ℕ
live [] = 0
live (r ∷ l) = (if r.once then 0 else 1) + live l

abbrev pub live_at : Bytes → List Release → ℕ
live_at ip [] = 0
live_at ip (r ∷ l) = (if r.once then 0 else if eq_bytes ip r.ip then 1 else 0) + live_at ip l

-- The counters with the release functions that were handed out, along any sequence of `acquire`
-- and of calls of release functions, repeated ones included.
pub data Holds (split_host_port : Bytes → Option Bytes) : PendingConns → List Release → Type 0 where
  unused : Holds split_host_port (record { total = 0; per_ip = λ _. 0 }) []
  acquired :
      (p p' : PendingConns) (l : List Release) (addr : Option Bytes) (r : Release)
      → Holds split_host_port p l
      → acquire split_host_port p addr ≡ (some r, p')
      → Holds split_host_port p' (r ∷ l)
  refused :
      (p p' : PendingConns) (l : List Release) (addr : Option Bytes)
      → Holds split_host_port p l
      → acquire split_host_port p addr ≡ (none, p')
      → Holds split_host_port p' l
  released :
      (p : PendingConns) (xs ys : List Release) (r : Release)
      → Holds split_host_port p (xs ++ (r ∷ ys))
      → Holds split_host_port (release r p).1 (xs ++ ((release r p).0 ∷ ys))

pub record IsCounted (p : PendingConns) (l : List Release) : Type 0 where
  pub all : p.total ≡ live l
  pub each : (ip : Bytes) → p.per_ip ip ≡ live_at ip l
  pub total_limit : p.total ≤ max_pending_control_conns
  pub ip_limit : (ip : Bytes) → p.per_ip ip ≤ max_pending_control_conns_per_ip

live-append : (xs ys : List Release) → live (xs ++ ys) ≡ live xs + live ys
live-append [] ys = omega arith
live-append (x ∷ xs) ys = omega (arith, live-append xs ys)

live_at-append :
    (ip : Bytes) (xs ys : List Release) → live_at ip (xs ++ ys) ≡ live_at ip xs + live_at ip ys
live_at-append ip [] ys = omega arith
live_at-append ip (x ∷ xs) ys = omega (arith, live_at-append ip xs ys)

-- What `acquire` leaves, whatever it returns.
abbrev Counted : List Release → Option Release × PendingConns → Type 0
Counted l (some r, p) = IsCounted p (r ∷ l)
Counted l (none, p) = IsCounted p l

same_count : (p : PendingConns) (k ip : Bytes) → eq_bytes k ip ≡ true → p.per_ip k ≡ p.per_ip ip
same_count p k ip e = ap p.per_ip (eq_bytes-eq k ip e)

acquire_ip-Counted :
    (p : PendingConns) (ip : Bytes) (l : List Release) → IsCounted p l → Counted l (acquire_ip p ip)
unfolding acquire_ip is_full
acquire_ip-Counted p ip l v =
    if_split (Counted l)
      (leb max_pending_control_conns p.total || leb max_pending_control_conns_per_ip (p.per_ip ip))
      (λ _. v)
      (λ e. record {
        all = omega (arith, v.all);
        each = λ k. ground (arith, v.each k, same_count p k ip);
        total_limit = ground arith;
        ip_limit = λ k. ground (arith, v.ip_limit k);
      })

acquire-Counted :
    (split_host_port : Bytes → Option Bytes) (p : PendingConns) (l : List Release)
    (addr : Option Bytes)
    → IsCounted p l
    → Counted l (acquire split_host_port p addr)
unfolding acquire
acquire-Counted split_host_port p l addr v =
    acquire_ip-Counted p (counted_ip split_host_port addr) l v

-- A release function that already ran changes nothing; the first call gives the slot back.
release-IsCounted :
    (p : PendingConns) (xs ys : List Release) (r : Release)
    → IsCounted p (xs ++ (r ∷ ys))
    → IsCounted (release r p).1 (xs ++ ((release r p).0 ∷ ys))
unfolding release
release-IsCounted p xs ys r v =
    if_split (λ (out : Release × PendingConns). IsCounted out.1 (xs ++ (out.0 ∷ ys))) r.once
      (λ _. v)
      (λ e. record {
        all = ground (
          arith,
          v.all,
          live-append xs (r ∷ ys),
          live-append xs ((record r { once = true }) ∷ ys),
        );
        each = λ k. ground (
          arith,
          v.each k,
          same_count p k r.ip,
          live_at-append k xs (r ∷ ys),
          live_at-append k xs ((record r { once = true }) ∷ ys),
        );
        total_limit = omega (arith, v.total_limit);
        ip_limit = λ k. ground (arith, v.ip_limit k, v.ip_limit r.ip);
      })

-- Along any sequence of connections and releases, in any order and with releases repeated: the
-- counters are the numbers of slots held, overall and per address, and they stay within 1024 and
-- 32.
pub Holds-IsCounted :
    {split_host_port : Bytes → Option Bytes} {p : PendingConns} {l : List Release}
    → Holds split_host_port p l
    → IsCounted p l
Holds-IsCounted unused = record {
  all = refl;
  each = λ _. refl;
  total_limit = omega arith;
  ip_limit = λ _. omega arith;
}
Holds-IsCounted {split_host_port} (acquired p p' l addr r h e) =
    subst (Counted l) e (acquire-Counted split_host_port p l addr (Holds-IsCounted h))
Holds-IsCounted {split_host_port} (refused p p' l addr h e) =
    subst (Counted l) e (acquire-Counted split_host_port p l addr (Holds-IsCounted h))
Holds-IsCounted (released p xs ys r h) = release-IsCounted p xs ys r (Holds-IsCounted h)

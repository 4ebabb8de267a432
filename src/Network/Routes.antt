-- ===== src/Network/Routes.antt =====
-- Whose data goes where, over the servers that `main` connects.
use gitee_fork_gateway.Prelude.{
  ℕ, ◌≡◌, refl, sym, ap, subst, ◌∙◌, ◌≢◌, ◌⊎◌, inl, inr, some, List, [], ◌∷◌, arith,
}
use gitee_fork_gateway.FifoQueue.{FifoQueue}
use gitee_fork_gateway.Configure.{Configure}
use gitee_fork_gateway.Parser.Pooled.{Unmarshal}
use gitee_fork_gateway.Network.Impl.{Surroundings}
use gitee_fork_gateway.Entities.{DataWrapper}
use gitee_fork_gateway.Dispatch.{Inbox}
use gitee_fork_gateway.Dispatch.Broadcast.{Accepts, Received}
use gitee_fork_gateway.Network.{
  Name, weixin, gate_way, web, app, web_socket, Network, to_broad_cast, main,
}
use gitee_fork_gateway.Network.Data.{inbox_of, broad_cast_loop, broad_cast}
use gitee_fork_gateway.Network.Sent.{add_data-Sent}

abbrev pub In : Name → List Name → Type 0
In q [] = ⊥
In q (p ∷ ps) = (q ≡ p) ⊎ In q ps

abbrev pub NotIn : Name → List Name → Type 0
NotIn q [] = Unit
NotIn q (p ∷ ps) = (q ≢ p) × NotIn q ps

abbrev pub Distinct : List Name → Type 0
Distinct [] = Unit
Distinct (p ∷ ps) = NotIn p ps × Distinct ps

-- The servers can take the data at once.
abbrev pub AllTake : Network → List Name → DataWrapper → Type 0
AllTake n [] d = Unit
AllTake n (p ∷ ps) d = Accepts (inbox_of n p) d.target_con_serial × AllTake n ps d

-- Just these servers have received the data, each once, and nothing else of any queue has changed.
pub record Reached (n n' : Network) (ps : List Name) (d : DataWrapper) : Type 0 where
  pub received :
      (q : Name) → In q ps → Received (inbox_of n q) (inbox_of n' q) d.target_con_serial d
  pub rest : (q : Name) → NotIn q ps → inbox_of n' q ≡ inbox_of n q
  pub routes : (q : Name) → to_broad_cast n' q ≡ to_broad_cast n q

In-NotIn : (p q : Name) (ps : List Name) → NotIn p ps → In q ps → p ≢ q
In-NotIn p q [] a b e = absurd b
In-NotIn p q (r ∷ ps) (ne, a) (inl b) e = ne (e ∙ b)
In-NotIn p q (r ∷ ps) (ne, a) (inr b) e = In-NotIn p q ps a b e

AllTake-kept :
    (n n' : Network) (p : Name) (ps : List Name) (d : DataWrapper)
    → ((q : Name) → p ≢ q → inbox_of n' q ≡ inbox_of n q)
    → NotIn p ps
    → AllTake n ps d
    → AllTake n' ps d
AllTake-kept n n' p [] d same a t = t
AllTake-kept n n' p (q ∷ ps) d same (ne, a) (t, ts) = (
  subst (λ i. Accepts i d.target_con_serial) (sym (same q ne)) t,
  AllTake-kept n n' p ps d same a ts,
)

abbrev Between : DataWrapper → Inbox DataWrapper → Inbox DataWrapper → Type 0
Between d i j = Received i j d.target_con_serial d

moved :
    (d : DataWrapper) (i i' j j' : Inbox DataWrapper)
    → i ≡ i'
    → j ≡ j'
    → Between d i j
    → Between d i' j'
moved d i i' j j' e f r = subst (λ k. Between d i' k) f (subst (λ k. Between d k j) e r)

module _ (others : FifoQueue DataWrapper → FifoQueue DataWrapper) (now : ℕ) where
  loop-Reached :
      (n : Network) (ps : List Name) (d : DataWrapper)
      → Distinct ps
      → AllTake n ps d
      → (n' : Network) × (broad_cast_loop others now n ps d ≡ some n') × Reached n n' ps d
  unfolding broad_cast_loop
  loop-Reached n [] d dist t =
      (n, refl, record { received = λ q a. absurd a; rest = λ q a. refl; routes = λ q. refl })
  loop-Reached n (p ∷ ps) d (np, dist) (t, ts) =
      let (n1, e1, s) = add_data-Sent others now n p d t in
      let (n2, e2, r) = loop-Reached n1 ps d dist (AllTake-kept n n1 p ps d s.rest np ts) in
      (
        n2,
        (rw e1 e2),
        record {
          received = λ q a. elim a [
            | inl e ↦
                moved d (inbox_of n p) (inbox_of n q) (inbox_of n1 p) (inbox_of n2 q)
                  (ap (inbox_of n) (sym e)) (sym (r.rest p np) ∙ ap (inbox_of n2) (sym e))
                  s.received
            | inr m ↦
                moved d (inbox_of n1 q) (inbox_of n q) (inbox_of n2 q) (inbox_of n2 q)
                  (s.rest q (In-NotIn p q ps np m)) refl (r.received q m)
          ];
          rest = λ q a. r.rest q a.1 ∙ s.rest q (λ e. a.0 (sym e));
          routes = λ q. r.routes q ∙ s.routes q;
        },
      )

-- The gateway's data goes to the web, the app's and the WebSocket server, the others' to the gateway.
abbrev pub targets : Name → List Name
targets weixin = gate_way ∷ []
targets gate_way = web ∷ app ∷ web_socket ∷ []
targets web = gate_way ∷ []
targets app = gate_way ∷ []
targets web_socket = gate_way ∷ []

pub targets-Distinct : (p : Name) → Distinct (targets p)
targets-Distinct weixin = (record {}, record {})
targets-Distinct gate_way = (
  (λ e. ground arith, (λ e. ground arith, record {})),
  ((λ e. ground arith, record {}), (record {}, record {})),
)
targets-Distinct web = (record {}, record {})
targets-Distinct app = (record {}, record {})
targets-Distinct web_socket = (record {}, record {})

module _ (x : Surroundings) (unmarshal : Unmarshal) (alive : List ℕ) (cfg : Configure) where
  as_connected : (p : Name) → to_broad_cast (main x unmarshal alive cfg).0 p ≡ targets p
  unfolding main to_broad_cast
  as_connected weixin = refl
  as_connected gate_way = refl
  as_connected web = refl
  as_connected app = refl
  as_connected web_socket = refl

  -- On servers that are connected as `main` connects them, whatever is in their queues: a broadcast of
  -- the gateway's server, where the web, the app's and the WebSocket server can take data at once,
  -- returns, and each of the three has the data once; a broadcast of any other server, where the
  -- gateway's can, returns, and the gateway's has it once. No other queue has changed, so no
  -- broadcast gives the UDP server any data, and the servers are connected as before.
  pub broad_cast-Reached :
      (others : FifoQueue DataWrapper → FifoQueue DataWrapper) (now : ℕ) (n : Network) (p : Name)
      (d : DataWrapper)
      → ((q : Name) → to_broad_cast n q ≡ to_broad_cast (main x unmarshal alive cfg).0 q)
      → AllTake n (targets p) d
      → (n' : Network) × (broad_cast others now n p d ≡ some n') × Reached n n' (targets p) d
  unfolding broad_cast
  broad_cast-Reached others now n p d same takes =
      let (n', e, r) = loop-Reached others now n (targets p) d (targets-Distinct p) takes in
      (n', ap (λ ps. broad_cast_loop others now n ps d) (same p ∙ as_connected p) ∙ e, r)

-- ===== src/Friends/Invitations.antt =====
-- The invitation queue: first in, first out, and nothing lost between polls.
use openpak_client.Shared.{
  ◌≡◌, refl, sym, ap, ◌∙◌, Option, none, some, List, [], ◌∷◌, ◌++◌, append_assoc, append-nil,
  nat_eq, text_eq,
}
use openpak_client.Friends.{
  Cache, PendingInvitation, set_pending_invitations, peek_pending_invitations, pop_front,
  pop_pending_invitation,
}

pub data Call : Type 0 where
  arrive : List PendingInvitation → Call
  pop : Call

abbrev out : Option PendingInvitation → List PendingInvitation
out none = []
out (some i) = i ∷ []

-- The queue after some calls, and what the guest was given, in order.
pub deliver : List Call → Cache → Cache × List PendingInvitation
deliver [] c = (c, [])
deliver (arrive is ∷ cs) c = deliver cs (set_pending_invitations is c).0
deliver (pop ∷ cs) c =
    let (c', got) = pop_pending_invitation c in
    let (d, rest) = deliver cs c' in (d, out got ++ rest)

pub arrived : List Call → List PendingInvitation
arrived [] = []
arrived (arrive is ∷ cs) = is ++ arrived cs
arrived (pop ∷ cs) = arrived cs

pop-peek :
    (c : Cache) (is : List PendingInvitation)
    → c.pending_invitations ≡ is
    → out (pop_front c is).1 ++ (pop_front c is).0.pending_invitations ≡ is
unfolding pop_front
pop-peek c [] e = e
pop-peek c (i ∷ is) e = refl

peek-set :
    (is : List PendingInvitation) (c : Cache)
    → (set_pending_invitations is c).0.pending_invitations ≡ c.pending_invitations ++ is
unfolding set_pending_invitations
peek-set [] c = sym (append-nil c.pending_invitations)
peek-set (i ∷ is) c = refl

-- Whatever the order of polls and pops, the invitations that the guest got, followed by those that
-- still wait, are those that waited at first followed by those that arrived, in their order.
pub deliver-arrived :
    (cs : List Call) (c : Cache)
    → (deliver cs c).1 ++ peek_pending_invitations (deliver cs c).0
      ≡ peek_pending_invitations c ++ arrived cs
unfolding deliver arrived peek_pending_invitations pop_pending_invitation
deliver-arrived [] c = sym (append-nil c.pending_invitations)
deliver-arrived (arrive is ∷ cs) c =
    deliver-arrived cs (set_pending_invitations is c).0
    ∙ rw peek-set (append_assoc c.pending_invitations is (arrived cs))
deliver-arrived (pop ∷ cs) c =
    let next = pop_front c c.pending_invitations in
    append_assoc (out next.1) (deliver cs next.0).1 (deliver cs next.0).0.pending_invitations
    ∙ (ap (λ t. out next.1 ++ t) (deliver-arrived cs next.0)
        ∙ (sym (append_assoc (out next.1) next.0.pending_invitations (arrived cs))
            ∙ ap (λ t. t ++ arrived cs) (pop-peek c c.pending_invitations refl)))

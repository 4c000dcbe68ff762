-- ===== src/Examples/Envelope.antt =====
-- provider-response-envelope.js: two citations, one of them held already.
use magento2_chat_ai.Orchestration.Envelope.{
  Citation, add_provider_citations, max_citations, is_https, has_url,
}
use magento2_chat_ai.Orchestration.Envelope.Listed.{is_listed, offers, add-is_listed}
use magento2_chat_ai.Prelude.{◌+◌, ◌≤◌, ◌≡◌, ◌⊎◌, refl, true, List, [], ◌∷◌, length, max, any}
use magento2_chat_ai.Text.{Text, codes}

abbrev cited : Text → Citation
cited url = record { url = url; title = []; snippet = [] }

abbrev held : List Citation
held = cited (codes "https://a.example") ∷ []

abbrev candidates : List Citation
candidates = cited (codes "https://a.example") ∷ cited (codes "https://b.example") ∷ []

held-is_listed : is_listed held ≡ true
unfolding is_https has_url any
held-is_listed = refl

add-is_listed_example :
    (is_listed (add_provider_citations held candidates) ≡ true)
    × (length (add_provider_citations held candidates) ≤ max max_citations (length held + 1))
    × ((url : Text)
        → has_url url held ≡ true
        → has_url url (add_provider_citations held candidates) ≡ true)
    × ((url : Text)
        → offers url candidates ≡ true
        → (has_url url (add_provider_citations held candidates) ≡ true)
          ⊎ (max_citations ≤ length (add_provider_citations held candidates)))
add-is_listed_example = add-is_listed held candidates held-is_listed

abbrev full : List Citation
full =
    cited (codes "https://a.example")
    ∷ cited (codes "https://b.example")
    ∷ cited (codes "https://c.example")
    ∷ cited (codes "https://d.example")
    ∷ cited (codes "https://e.example")
    ∷ cited (codes "https://f.example")
    ∷ cited (codes "https://g.example")
    ∷ cited (codes "https://h.example")
    ∷ cited (codes "https://i.example")
    ∷ cited (codes "https://j.example")
    ∷ cited (codes "https://k.example")
    ∷ cited (codes "https://l.example")
    ∷ cited (codes "https://m.example")
    ∷ cited (codes "https://n.example")
    ∷ cited (codes "https://o.example")
    ∷ cited (codes "https://p.example")
    ∷ cited (codes "https://q.example")
    ∷ cited (codes "https://r.example")
    ∷ cited (codes "https://s.example")
    ∷ cited (codes "https://t.example")
    ∷ []

-- A call on an envelope that is full takes one citation more.
full_grows : length (add_provider_citations full (cited (codes "https://z.example") ∷ [])) ≡ 21
unfolding add_provider_citations is_https has_url any
full_grows = refl

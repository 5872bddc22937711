-- ===== src/Partner/Home/Laws.antt =====
-- Lemmas about the message that web/apps/partner/app/(app)/parceiro/page.tsx shares.
use indica_ai.Prelude.{
  ◌≡◌, ◌≢◌, refl, some, ◌++◌, String, Text, codes, str_eq, eq_iff, All, All-append, false, arith,
}
use indica_ai.Js.Uri.{encode_uri, decode_uri}
use indica_ai.Js.Uri.Bytes.{IsScalar}
use indica_ai.Js.Uri.Laws.{IsScalar-ascii, IsInner, decode_uri-encode_uri, encode_uri-IsInner}
use indica_ai.Partner.Api.{PartnerMe}
use indica_ai.Partner.Home.{message_text, share_prefix, whatsapp_share}

greeting : All IsScalar (codes "Oi! Olha esse desconto/oferta especial: ")
greeting = IsScalar-ascii (codes "Oi! Olha esse desconto/oferta especial: ") refl

-- For a partner whose link is not empty and consists of characters below 65536 that are no halves
-- of surrogate pairs, the share button opens a WhatsApp URL whose text decodes to the whole message
-- and holds neither an ampersand nor a hash.
pub whatsapp_share-message :
    {J : Type 0} (m : PartnerMe J) (url : String)
    → m.link_url ≡ some url
    → url ≢ ""
    → All IsScalar (codes url)
    → (q : Text) × (whatsapp_share m ≡ some (share_prefix ++ q))
      × (decode_uri q ≡ some (message_text (codes url)))
      × All IsInner q
unfolding whatsapp_share
whatsapp_share-message m url e n h =
    let scalar =
      All-append IsScalar (codes "Oi! Olha esse desconto/oferta especial: ") (codes url) greeting
        h in
    let full : str_eq url "" ≡ false = ground (arith, eq_iff url "") in
    (
      encode_uri (message_text (codes url)),
      rw (e, full) refl,
      decode_uri-encode_uri (message_text (codes url)) scalar,
      encode_uri-IsInner (message_text (codes url)) scalar,
    )

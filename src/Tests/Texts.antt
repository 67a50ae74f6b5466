-- ===== src/Tests/Texts.antt =====
-- Concrete texts, forms and addresses.
use jetauth.Prelude.{
  Text, str, text_beq, All, leb, ok, refl, some, [], arith, ◌+◌, ◌*◌, ◌≡◌, ◌&&◌, ◌||◌, ◌∷◌, ◌++◌,
  text_eq, nat_eq,
}
use jetauth.Util.Utf8.{from_utf8_lossy}
use jetauth.Util.Percent.{url_decode, percent_encode}
use jetauth.Util.Percent.RoundTrip.{IsByte, url_decode-percent_encode}
use jetauth.Util.Query.{Form, check_no_duplicates}
use jetauth.Util.Html.{html_escape}
use jetauth.Util.Html.Escaped.{escape_each, html_escape-eq-escape_each}
use jetauth.Util.Script.{js_string_escape, quote}
use jetauth.Util.Script.Literal.{scan, body, scan-js_string_escape}
use jetauth.Util.Address.{v6, is_private_or_reserved_ip, is_loopback_or_unspecified}
use jetauth.Util.Address.Blocks.{in_blocks, reserved, AreOctets}
use jetauth.Util.Address.Ipv6.{is_mapped, is_private_or_reserved_ip-v6}

abbrev sample : Text
sample = str "a b&c"

sample-IsByte : All IsByte sample
sample-IsByte = ground arith

url_decode-percent_encode_example : url_decode (percent_encode sample) ≡ from_utf8_lossy sample
url_decode-percent_encode_example = url_decode-percent_encode sample sample-IsByte

abbrev form : Form
form = (str "code", str "c") ∷ (str "state", str "s") ∷ []

form_passes : check_no_duplicates form ≡ ok tt
unfolding check_no_duplicates jetauth.Prelude.text_beq
form_passes = refl

html_escape-eq-escape_each_example : html_escape (str "<b>&") ≡ escape_each (str "<b>&")
html_escape-eq-escape_each_example = html_escape-eq-escape_each (str "<b>&")

scan-js_string_escape_example :
    scan body (js_string_escape (str "';</script>") ++ quote ∷ str ";")
    ≡ some (str "';</script>", str ";")
scan-js_string_escape_example = scan-js_string_escape (str "';</script>") (str ";")

octets : AreOctets 192 168 1 1
octets = record {
  first = omega arith;
  second = omega arith;
  third = omega arith;
  fourth = omega arith;
}

-- ::ffff:192.168.1.1
is_private_or_reserved_ip-v6_example :
    is_private_or_reserved_ip (v6 0 0 0 0 0 0xffff 0xc0a8 0x0101) ≡ (
      is_loopback_or_unspecified 0 0 0 0 0 0xffff 0xc0a8 0x0101
      || (leb 0xfe80 0 && leb 0 0xfebf
          || (leb 0xfc00 0 && leb 0 0xfdff
              || (leb 0xff00 0
                  || is_mapped 0 0 0 0 0 0xffff && in_blocks (0xc0a8 * 65536 + 0x0101) reserved))))
is_private_or_reserved_ip-v6_example =
    is_private_or_reserved_ip-v6 0 0 0 0 0 0xffff 0xc0a8 0x0101 (omega arith) (omega arith)
      (omega arith)

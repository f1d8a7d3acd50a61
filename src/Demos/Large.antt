-- ===== src/Demos/Large.antt =====
-- frontend/components/ExecutionConsole.tsx: the program with 300 lines of output, in base64.
use isolator_v_wasm_sandbox.Common.{Text, codes, [], ◌∷◌}
use isolator_v_wasm_sandbox.Demos.Wasm.{concat}

unfoldable pub large_wasm_b64 : Text
unfolding concat
large_wasm_b64 = concat (
    codes "AGFzbQEAAAABEANgBH9/f38Bf2ABfwBgAAACRgIWd2FzaV9zbmFwc2hvdF9wcmV2aWV3"
    ∷ codes "MQhmZF93cml0ZQAAFndhc2lfc25hcHNob3RfcHJldmlldzEJcHJvY19leGl0AAEDAgEC"
    ∷ codes "BQMBAAEHEwIGbWVtb3J5AgAGX3N0YXJ0AAIKIwEhAEEAQRA2AgBBBEG1ygA2AgBBAUEA"
    ∷ codes "QQFBCBAAGkEAEAELC7xKAQBBEAu1SkxhcmdlIE91dHB1dCBUZXN0Cj09PT09PT09PT09"
    ∷ codes "PT09PT09ClN0cmVhbWluZyAzMDAgbnVtYmVyZWQgbGluZXMgdG8gZXhlcmNpc2UgdGhl"
    ∷ codes "IHRlcm1pbmFsIGJ1ZmZlci4KCiAgICAxOiBicmF2byBjaGFybGllIGRlbHRhIGVjaG8K"
    ∷ codes "ICAgIDI6IGNoYXJsaWUgZGVsdGEgZWNobyBmb3h0cm90CiAgICAzOiBkZWx0YSBlY2hv"
    ∷ codes "IGZveHRyb3QgZ29sZgogICAgNDogZWNobyBmb3h0cm90IGdvbGYgaG90ZWwKICAgIDU6"
    ∷ codes "IGZveHRyb3QgZ29sZiBob3RlbCBpbmRpYQogICAgNjogZ29sZiBob3RlbCBpbmRpYSBq"
    ∷ codes "dWxpZXQKICAgIDc6IGhvdGVsIGluZGlhIGp1bGlldCBraWxvCiAgICA4OiBpbmRpYSBq"
    ∷ codes "dWxpZXQga2lsbyBsaW1hCiAgICA5OiBqdWxpZXQga2lsbyBsaW1hIGFscGhhCiAgIDEw"
    ∷ codes "OiBraWxvIGxpbWEgYWxwaGEgYnJhdm8KICAgMTE6IGxpbWEgYWxwaGEgYnJhdm8gY2hh"
    ∷ codes "cmxpZQogICAxMjogYWxwaGEgYnJhdm8gY2hhcmxpZSBkZWx0YQogICAxMzogYnJhdm8g"
    ∷ codes "Y2hhcmxpZSBkZWx0YSBlY2hvCiAgIDE0OiBjaGFybGllIGRlbHRhIGVjaG8gZm94dHJv"
    ∷ codes "dAogICAxNTogZGVsdGEgZWNobyBmb3h0cm90IGdvbGYKICAgMTY6IGVjaG8gZm94dHJv"
    ∷ codes "dCBnb2xmIGhvdGVsCiAgIDE3OiBmb3h0cm90IGdvbGYgaG90ZWwgaW5kaWEKICAgMTg6"
    ∷ codes "IGdvbGYgaG90ZWwgaW5kaWEganVsaWV0CiAgIDE5OiBob3RlbCBpbmRpYSBqdWxpZXQg"
    ∷ codes "a2lsbwogICAyMDogaW5kaWEganVsaWV0IGtpbG8gbGltYQogICAyMToganVsaWV0IGtp"
    ∷ codes "bG8gbGltYSBhbHBoYQogICAyMjoga2lsbyBsaW1hIGFscGhhIGJyYXZvCiAgIDIzOiBs"
    ∷ codes "aW1hIGFscGhhIGJyYXZvIGNoYXJsaWUKICAgMjQ6IGFscGhhIGJyYXZvIGNoYXJsaWUg"
    ∷ codes "ZGVsdGEKICAgMjU6IGJyYXZvIGNoYXJsaWUgZGVsdGEgZWNobwogICAyNjogY2hhcmxp"
    ∷ codes "ZSBkZWx0YSBlY2hvIGZveHRyb3QKICAgMjc6IGRlbHRhIGVjaG8gZm94dHJvdCBnb2xm"
    ∷ codes "CiAgIDI4OiBlY2hvIGZveHRyb3QgZ29sZiBob3RlbAogICAyOTogZm94dHJvdCBnb2xm"
    ∷ codes "IGhvdGVsIGluZGlhCiAgIDMwOiBnb2xmIGhvdGVsIGluZGlhIGp1bGlldAogICAzMTog"
    ∷ codes "aG90ZWwgaW5kaWEganVsaWV0IGtpbG8KICAgMzI6IGluZGlhIGp1bGlldCBraWxvIGxp"
    ∷ codes "bWEKICAgMzM6IGp1bGlldCBraWxvIGxpbWEgYWxwaGEKICAgMzQ6IGtpbG8gbGltYSBh"
    ∷ codes "bHBoYSBicmF2bwogICAzNTogbGltYSBhbHBoYSBicmF2byBjaGFybGllCiAgIDM2OiBh"
    ∷ codes "bHBoYSBicmF2byBjaGFybGllIGRlbHRhCiAgIDM3OiBicmF2byBjaGFybGllIGRlbHRh"
    ∷ codes "IGVjaG8KICAgMzg6IGNoYXJsaWUgZGVsdGEgZWNobyBmb3h0cm90CiAgIDM5OiBkZWx0"
    ∷ codes "YSBlY2hvIGZveHRyb3QgZ29sZgogICA0MDogZWNobyBmb3h0cm90IGdvbGYgaG90ZWwK"
    ∷ codes "ICAgNDE6IGZveHRyb3QgZ29sZiBob3RlbCBpbmRpYQogICA0MjogZ29sZiBob3RlbCBp"
    ∷ codes "bmRpYSBqdWxpZXQKICAgNDM6IGhvdGVsIGluZGlhIGp1bGlldCBraWxvCiAgIDQ0OiBp"
    ∷ codes "bmRpYSBqdWxpZXQga2lsbyBsaW1hCiAgIDQ1OiBqdWxpZXQga2lsbyBsaW1hIGFscGhh"
    ∷ codes "CiAgIDQ2OiBraWxvIGxpbWEgYWxwaGEgYnJhdm8KICAgNDc6IGxpbWEgYWxwaGEgYnJh"
    ∷ codes "dm8gY2hhcmxpZQogICA0ODogYWxwaGEgYnJhdm8gY2hhcmxpZSBkZWx0YQogICA0OTog"
    ∷ codes "YnJhdm8gY2hhcmxpZSBkZWx0YSBlY2hvCiAgIDUwOiBjaGFybGllIGRlbHRhIGVjaG8g"
    ∷ codes "Zm94dHJvdAogICA1MTogZGVsdGEgZWNobyBmb3h0cm90IGdvbGYKICAgNTI6IGVjaG8g"
    ∷ codes "Zm94dHJvdCBnb2xmIGhvdGVsCiAgIDUzOiBmb3h0cm90IGdvbGYgaG90ZWwgaW5kaWEK"
    ∷ codes "ICAgNTQ6IGdvbGYgaG90ZWwgaW5kaWEganVsaWV0CiAgIDU1OiBob3RlbCBpbmRpYSBq"
    ∷ codes "dWxpZXQga2lsbwogICA1NjogaW5kaWEganVsaWV0IGtpbG8gbGltYQogICA1NzoganVs"
    ∷ codes "aWV0IGtpbG8gbGltYSBhbHBoYQogICA1ODoga2lsbyBsaW1hIGFscGhhIGJyYXZvCiAg"
    ∷ codes "IDU5OiBsaW1hIGFscGhhIGJyYXZvIGNoYXJsaWUKICAgNjA6IGFscGhhIGJyYXZvIGNo"
    ∷ codes "YXJsaWUgZGVsdGEKICAgNjE6IGJyYXZvIGNoYXJsaWUgZGVsdGEgZWNobwogICA2Mjog"
    ∷ codes "Y2hhcmxpZSBkZWx0YSBlY2hvIGZveHRyb3QKICAgNjM6IGRlbHRhIGVjaG8gZm94dHJv"
    ∷ codes "dCBnb2xmCiAgIDY0OiBlY2hvIGZveHRyb3QgZ29sZiBob3RlbAogICA2NTogZm94dHJv"
    ∷ codes "dCBnb2xmIGhvdGVsIGluZGlhCiAgIDY2OiBnb2xmIGhvdGVsIGluZGlhIGp1bGlldAog"
    ∷ codes "ICA2NzogaG90ZWwgaW5kaWEganVsaWV0IGtpbG8KICAgNjg6IGluZGlhIGp1bGlldCBr"
    ∷ codes "aWxvIGxpbWEKICAgNjk6IGp1bGlldCBraWxvIGxpbWEgYWxwaGEKICAgNzA6IGtpbG8g"
    ∷ codes "bGltYSBhbHBoYSBicmF2bwogICA3MTogbGltYSBhbHBoYSBicmF2byBjaGFybGllCiAg"
    ∷ codes "IDcyOiBhbHBoYSBicmF2byBjaGFybGllIGRlbHRhCiAgIDczOiBicmF2byBjaGFybGll"
    ∷ codes "IGRlbHRhIGVjaG8KICAgNzQ6IGNoYXJsaWUgZGVsdGEgZWNobyBmb3h0cm90CiAgIDc1"
    ∷ codes "OiBkZWx0YSBlY2hvIGZveHRyb3QgZ29sZgogICA3NjogZWNobyBmb3h0cm90IGdvbGYg"
    ∷ codes "aG90ZWwKICAgNzc6IGZveHRyb3QgZ29sZiBob3RlbCBpbmRpYQogICA3ODogZ29sZiBo"
    ∷ codes "b3RlbCBpbmRpYSBqdWxpZXQKICAgNzk6IGhvdGVsIGluZGlhIGp1bGlldCBraWxvCiAg"
    ∷ codes "IDgwOiBpbmRpYSBqdWxpZXQga2lsbyBsaW1hCiAgIDgxOiBqdWxpZXQga2lsbyBsaW1h"
    ∷ codes "IGFscGhhCiAgIDgyOiBraWxvIGxpbWEgYWxwaGEgYnJhdm8KICAgODM6IGxpbWEgYWxw"
    ∷ codes "aGEgYnJhdm8gY2hhcmxpZQogICA4NDogYWxwaGEgYnJhdm8gY2hhcmxpZSBkZWx0YQog"
    ∷ codes "ICA4NTogYnJhdm8gY2hhcmxpZSBkZWx0YSBlY2hvCiAgIDg2OiBjaGFybGllIGRlbHRh"
    ∷ codes "IGVjaG8gZm94dHJvdAogICA4NzogZGVsdGEgZWNobyBmb3h0cm90IGdvbGYKICAgODg6"
    ∷ codes "IGVjaG8gZm94dHJvdCBnb2xmIGhvdGVsCiAgIDg5OiBmb3h0cm90IGdvbGYgaG90ZWwg"
    ∷ codes "aW5kaWEKICAgOTA6IGdvbGYgaG90ZWwgaW5kaWEganVsaWV0CiAgIDkxOiBob3RlbCBp"
    ∷ codes "bmRpYSBqdWxpZXQga2lsbwogICA5MjogaW5kaWEganVsaWV0IGtpbG8gbGltYQogICA5"
    ∷ codes "MzoganVsaWV0IGtpbG8gbGltYSBhbHBoYQogICA5NDoga2lsbyBsaW1hIGFscGhhIGJy"
    ∷ codes "YXZvCiAgIDk1OiBsaW1hIGFscGhhIGJyYXZvIGNoYXJsaWUKICAgOTY6IGFscGhhIGJy"
    ∷ codes "YXZvIGNoYXJsaWUgZGVsdGEKICAgOTc6IGJyYXZvIGNoYXJsaWUgZGVsdGEgZWNobwog"
    ∷ codes "ICA5ODogY2hhcmxpZSBkZWx0YSBlY2hvIGZveHRyb3QKICAgOTk6IGRlbHRhIGVjaG8g"
    ∷ codes "Zm94dHJvdCBnb2xmCiAgMTAwOiBlY2hvIGZveHRyb3QgZ29sZiBob3RlbAogIDEwMTog"
    ∷ codes "Zm94dHJvdCBnb2xmIGhvdGVsIGluZGlhCiAgMTAyOiBnb2xmIGhvdGVsIGluZGlhIGp1"
    ∷ codes "bGlldAogIDEwMzogaG90ZWwgaW5kaWEganVsaWV0IGtpbG8KICAxMDQ6IGluZGlhIGp1"
    ∷ codes "bGlldCBraWxvIGxpbWEKICAxMDU6IGp1bGlldCBraWxvIGxpbWEgYWxwaGEKICAxMDY6"
    ∷ codes "IGtpbG8gbGltYSBhbHBoYSBicmF2bwogIDEwNzogbGltYSBhbHBoYSBicmF2byBjaGFy"
    ∷ codes "bGllCiAgMTA4OiBhbHBoYSBicmF2byBjaGFybGllIGRlbHRhCiAgMTA5OiBicmF2byBj"
    ∷ codes "aGFybGllIGRlbHRhIGVjaG8KICAxMTA6IGNoYXJsaWUgZGVsdGEgZWNobyBmb3h0cm90"
    ∷ codes "CiAgMTExOiBkZWx0YSBlY2hvIGZveHRyb3QgZ29sZgogIDExMjogZWNobyBmb3h0cm90"
    ∷ codes "IGdvbGYgaG90ZWwKICAxMTM6IGZveHRyb3QgZ29sZiBob3RlbCBpbmRpYQogIDExNDog"
    ∷ codes "Z29sZiBob3RlbCBpbmRpYSBqdWxpZXQKICAxMTU6IGhvdGVsIGluZGlhIGp1bGlldCBr"
    ∷ codes "aWxvCiAgMTE2OiBpbmRpYSBqdWxpZXQga2lsbyBsaW1hCiAgMTE3OiBqdWxpZXQga2ls"
    ∷ codes "byBsaW1hIGFscGhhCiAgMTE4OiBraWxvIGxpbWEgYWxwaGEgYnJhdm8KICAxMTk6IGxp"
    ∷ codes "bWEgYWxwaGEgYnJhdm8gY2hhcmxpZQogIDEyMDogYWxwaGEgYnJhdm8gY2hhcmxpZSBk"
    ∷ codes "ZWx0YQogIDEyMTogYnJhdm8gY2hhcmxpZSBkZWx0YSBlY2hvCiAgMTIyOiBjaGFybGll"
    ∷ codes "IGRlbHRhIGVjaG8gZm94dHJvdAogIDEyMzogZGVsdGEgZWNobyBmb3h0cm90IGdvbGYK"
    ∷ codes "ICAxMjQ6IGVjaG8gZm94dHJvdCBnb2xmIGhvdGVsCiAgMTI1OiBmb3h0cm90IGdvbGYg"
    ∷ codes "aG90ZWwgaW5kaWEKICAxMjY6IGdvbGYgaG90ZWwgaW5kaWEganVsaWV0CiAgMTI3OiBo"
    ∷ codes "b3RlbCBpbmRpYSBqdWxpZXQga2lsbwogIDEyODogaW5kaWEganVsaWV0IGtpbG8gbGlt"
    ∷ codes "YQogIDEyOToganVsaWV0IGtpbG8gbGltYSBhbHBoYQogIDEzMDoga2lsbyBsaW1hIGFs"
    ∷ codes "cGhhIGJyYXZvCiAgMTMxOiBsaW1hIGFscGhhIGJyYXZvIGNoYXJsaWUKICAxMzI6IGFs"
    ∷ codes "cGhhIGJyYXZvIGNoYXJsaWUgZGVsdGEKICAxMzM6IGJyYXZvIGNoYXJsaWUgZGVsdGEg"
    ∷ codes "ZWNobwogIDEzNDogY2hhcmxpZSBkZWx0YSBlY2hvIGZveHRyb3QKICAxMzU6IGRlbHRh"
    ∷ codes "IGVjaG8gZm94dHJvdCBnb2xmCiAgMTM2OiBlY2hvIGZveHRyb3QgZ29sZiBob3RlbAog"
    ∷ codes "IDEzNzogZm94dHJvdCBnb2xmIGhvdGVsIGluZGlhCiAgMTM4OiBnb2xmIGhvdGVsIGlu"
    ∷ codes "ZGlhIGp1bGlldAogIDEzOTogaG90ZWwgaW5kaWEganVsaWV0IGtpbG8KICAxNDA6IGlu"
    ∷ codes "ZGlhIGp1bGlldCBraWxvIGxpbWEKICAxNDE6IGp1bGlldCBraWxvIGxpbWEgYWxwaGEK"
    ∷ codes "ICAxNDI6IGtpbG8gbGltYSBhbHBoYSBicmF2bwogIDE0MzogbGltYSBhbHBoYSBicmF2"
    ∷ codes "byBjaGFybGllCiAgMTQ0OiBhbHBoYSBicmF2byBjaGFybGllIGRlbHRhCiAgMTQ1OiBi"
    ∷ codes "cmF2byBjaGFybGllIGRlbHRhIGVjaG8KICAxNDY6IGNoYXJsaWUgZGVsdGEgZWNobyBm"
    ∷ codes "b3h0cm90CiAgMTQ3OiBkZWx0YSBlY2hvIGZveHRyb3QgZ29sZgogIDE0ODogZWNobyBm"
    ∷ codes "b3h0cm90IGdvbGYgaG90ZWwKICAxNDk6IGZveHRyb3QgZ29sZiBob3RlbCBpbmRpYQog"
    ∷ codes "IDE1MDogZ29sZiBob3RlbCBpbmRpYSBqdWxpZXQKICAxNTE6IGhvdGVsIGluZGlhIGp1"
    ∷ codes "bGlldCBraWxvCiAgMTUyOiBpbmRpYSBqdWxpZXQga2lsbyBsaW1hCiAgMTUzOiBqdWxp"
    ∷ codes "ZXQga2lsbyBsaW1hIGFscGhhCiAgMTU0OiBraWxvIGxpbWEgYWxwaGEgYnJhdm8KICAx"
    ∷ codes "NTU6IGxpbWEgYWxwaGEgYnJhdm8gY2hhcmxpZQogIDE1NjogYWxwaGEgYnJhdm8gY2hh"
    ∷ codes "cmxpZSBkZWx0YQogIDE1NzogYnJhdm8gY2hhcmxpZSBkZWx0YSBlY2hvCiAgMTU4OiBj"
    ∷ codes "aGFybGllIGRlbHRhIGVjaG8gZm94dHJvdAogIDE1OTogZGVsdGEgZWNobyBmb3h0cm90"
    ∷ codes "IGdvbGYKICAxNjA6IGVjaG8gZm94dHJvdCBnb2xmIGhvdGVsCiAgMTYxOiBmb3h0cm90"
    ∷ codes "IGdvbGYgaG90ZWwgaW5kaWEKICAxNjI6IGdvbGYgaG90ZWwgaW5kaWEganVsaWV0CiAg"
    ∷ codes "MTYzOiBob3RlbCBpbmRpYSBqdWxpZXQga2lsbwogIDE2NDogaW5kaWEganVsaWV0IGtp"
    ∷ codes "bG8gbGltYQogIDE2NToganVsaWV0IGtpbG8gbGltYSBhbHBoYQogIDE2Njoga2lsbyBs"
    ∷ codes "aW1hIGFscGhhIGJyYXZvCiAgMTY3OiBsaW1hIGFscGhhIGJyYXZvIGNoYXJsaWUKICAx"
    ∷ codes "Njg6IGFscGhhIGJyYXZvIGNoYXJsaWUgZGVsdGEKICAxNjk6IGJyYXZvIGNoYXJsaWUg"
    ∷ codes "ZGVsdGEgZWNobwogIDE3MDogY2hhcmxpZSBkZWx0YSBlY2hvIGZveHRyb3QKICAxNzE6"
    ∷ codes "IGRlbHRhIGVjaG8gZm94dHJvdCBnb2xmCiAgMTcyOiBlY2hvIGZveHRyb3QgZ29sZiBo"
    ∷ codes "b3RlbAogIDE3MzogZm94dHJvdCBnb2xmIGhvdGVsIGluZGlhCiAgMTc0OiBnb2xmIGhv"
    ∷ codes "dGVsIGluZGlhIGp1bGlldAogIDE3NTogaG90ZWwgaW5kaWEganVsaWV0IGtpbG8KICAx"
    ∷ codes "NzY6IGluZGlhIGp1bGlldCBraWxvIGxpbWEKICAxNzc6IGp1bGlldCBraWxvIGxpbWEg"
    ∷ codes "YWxwaGEKICAxNzg6IGtpbG8gbGltYSBhbHBoYSBicmF2bwogIDE3OTogbGltYSBhbHBo"
    ∷ codes "YSBicmF2byBjaGFybGllCiAgMTgwOiBhbHBoYSBicmF2byBjaGFybGllIGRlbHRhCiAg"
    ∷ codes "MTgxOiBicmF2byBjaGFybGllIGRlbHRhIGVjaG8KICAxODI6IGNoYXJsaWUgZGVsdGEg"
    ∷ codes "ZWNobyBmb3h0cm90CiAgMTgzOiBkZWx0YSBlY2hvIGZveHRyb3QgZ29sZgogIDE4NDog"
    ∷ codes "ZWNobyBmb3h0cm90IGdvbGYgaG90ZWwKICAxODU6IGZveHRyb3QgZ29sZiBob3RlbCBp"
    ∷ codes "bmRpYQogIDE4NjogZ29sZiBob3RlbCBpbmRpYSBqdWxpZXQKICAxODc6IGhvdGVsIGlu"
    ∷ codes "ZGlhIGp1bGlldCBraWxvCiAgMTg4OiBpbmRpYSBqdWxpZXQga2lsbyBsaW1hCiAgMTg5"
    ∷ codes "OiBqdWxpZXQga2lsbyBsaW1hIGFscGhhCiAgMTkwOiBraWxvIGxpbWEgYWxwaGEgYnJh"
    ∷ codes "dm8KICAxOTE6IGxpbWEgYWxwaGEgYnJhdm8gY2hhcmxpZQogIDE5MjogYWxwaGEgYnJh"
    ∷ codes "dm8gY2hhcmxpZSBkZWx0YQogIDE5MzogYnJhdm8gY2hhcmxpZSBkZWx0YSBlY2hvCiAg"
    ∷ codes "MTk0OiBjaGFybGllIGRlbHRhIGVjaG8gZm94dHJvdAogIDE5NTogZGVsdGEgZWNobyBm"
    ∷ codes "b3h0cm90IGdvbGYKICAxOTY6IGVjaG8gZm94dHJvdCBnb2xmIGhvdGVsCiAgMTk3OiBm"
    ∷ codes "b3h0cm90IGdvbGYgaG90ZWwgaW5kaWEKICAxOTg6IGdvbGYgaG90ZWwgaW5kaWEganVs"
    ∷ codes "aWV0CiAgMTk5OiBob3RlbCBpbmRpYSBqdWxpZXQga2lsbwogIDIwMDogaW5kaWEganVs"
    ∷ codes "aWV0IGtpbG8gbGltYQogIDIwMToganVsaWV0IGtpbG8gbGltYSBhbHBoYQogIDIwMjog"
    ∷ codes "a2lsbyBsaW1hIGFscGhhIGJyYXZvCiAgMjAzOiBsaW1hIGFscGhhIGJyYXZvIGNoYXJs"
    ∷ codes "aWUKICAyMDQ6IGFscGhhIGJyYXZvIGNoYXJsaWUgZGVsdGEKICAyMDU6IGJyYXZvIGNo"
    ∷ codes "YXJsaWUgZGVsdGEgZWNobwogIDIwNjogY2hhcmxpZSBkZWx0YSBlY2hvIGZveHRyb3QK"
    ∷ codes "ICAyMDc6IGRlbHRhIGVjaG8gZm94dHJvdCBnb2xmCiAgMjA4OiBlY2hvIGZveHRyb3Qg"
    ∷ codes "Z29sZiBob3RlbAogIDIwOTogZm94dHJvdCBnb2xmIGhvdGVsIGluZGlhCiAgMjEwOiBn"
    ∷ codes "b2xmIGhvdGVsIGluZGlhIGp1bGlldAogIDIxMTogaG90ZWwgaW5kaWEganVsaWV0IGtp"
    ∷ codes "bG8KICAyMTI6IGluZGlhIGp1bGlldCBraWxvIGxpbWEKICAyMTM6IGp1bGlldCBraWxv"
    ∷ codes "IGxpbWEgYWxwaGEKICAyMTQ6IGtpbG8gbGltYSBhbHBoYSBicmF2bwogIDIxNTogbGlt"
    ∷ codes "YSBhbHBoYSBicmF2byBjaGFybGllCiAgMjE2OiBhbHBoYSBicmF2byBjaGFybGllIGRl"
    ∷ codes "bHRhCiAgMjE3OiBicmF2byBjaGFybGllIGRlbHRhIGVjaG8KICAyMTg6IGNoYXJsaWUg"
    ∷ codes "ZGVsdGEgZWNobyBmb3h0cm90CiAgMjE5OiBkZWx0YSBlY2hvIGZveHRyb3QgZ29sZgog"
    ∷ codes "IDIyMDogZWNobyBmb3h0cm90IGdvbGYgaG90ZWwKICAyMjE6IGZveHRyb3QgZ29sZiBo"
    ∷ codes "b3RlbCBpbmRpYQogIDIyMjogZ29sZiBob3RlbCBpbmRpYSBqdWxpZXQKICAyMjM6IGhv"
    ∷ codes "dGVsIGluZGlhIGp1bGlldCBraWxvCiAgMjI0OiBpbmRpYSBqdWxpZXQga2lsbyBsaW1h"
    ∷ codes "CiAgMjI1OiBqdWxpZXQga2lsbyBsaW1hIGFscGhhCiAgMjI2OiBraWxvIGxpbWEgYWxw"
    ∷ codes "aGEgYnJhdm8KICAyMjc6IGxpbWEgYWxwaGEgYnJhdm8gY2hhcmxpZQogIDIyODogYWxw"
    ∷ codes "aGEgYnJhdm8gY2hhcmxpZSBkZWx0YQogIDIyOTogYnJhdm8gY2hhcmxpZSBkZWx0YSBl"
    ∷ codes "Y2hvCiAgMjMwOiBjaGFybGllIGRlbHRhIGVjaG8gZm94dHJvdAogIDIzMTogZGVsdGEg"
    ∷ codes "ZWNobyBmb3h0cm90IGdvbGYKICAyMzI6IGVjaG8gZm94dHJvdCBnb2xmIGhvdGVsCiAg"
    ∷ codes "MjMzOiBmb3h0cm90IGdvbGYgaG90ZWwgaW5kaWEKICAyMzQ6IGdvbGYgaG90ZWwgaW5k"
    ∷ codes "aWEganVsaWV0CiAgMjM1OiBob3RlbCBpbmRpYSBqdWxpZXQga2lsbwogIDIzNjogaW5k"
    ∷ codes "aWEganVsaWV0IGtpbG8gbGltYQogIDIzNzoganVsaWV0IGtpbG8gbGltYSBhbHBoYQog"
    ∷ codes "IDIzODoga2lsbyBsaW1hIGFscGhhIGJyYXZvCiAgMjM5OiBsaW1hIGFscGhhIGJyYXZv"
    ∷ codes "IGNoYXJsaWUKICAyNDA6IGFscGhhIGJyYXZvIGNoYXJsaWUgZGVsdGEKICAyNDE6IGJy"
    ∷ codes "YXZvIGNoYXJsaWUgZGVsdGEgZWNobwogIDI0MjogY2hhcmxpZSBkZWx0YSBlY2hvIGZv"
    ∷ codes "eHRyb3QKICAyNDM6IGRlbHRhIGVjaG8gZm94dHJvdCBnb2xmCiAgMjQ0OiBlY2hvIGZv"
    ∷ codes "eHRyb3QgZ29sZiBob3RlbAogIDI0NTogZm94dHJvdCBnb2xmIGhvdGVsIGluZGlhCiAg"
    ∷ codes "MjQ2OiBnb2xmIGhvdGVsIGluZGlhIGp1bGlldAogIDI0NzogaG90ZWwgaW5kaWEganVs"
    ∷ codes "aWV0IGtpbG8KICAyNDg6IGluZGlhIGp1bGlldCBraWxvIGxpbWEKICAyNDk6IGp1bGll"
    ∷ codes "dCBraWxvIGxpbWEgYWxwaGEKICAyNTA6IGtpbG8gbGltYSBhbHBoYSBicmF2bwogIDI1"
    ∷ codes "MTogbGltYSBhbHBoYSBicmF2byBjaGFybGllCiAgMjUyOiBhbHBoYSBicmF2byBjaGFy"
    ∷ codes "bGllIGRlbHRhCiAgMjUzOiBicmF2byBjaGFybGllIGRlbHRhIGVjaG8KICAyNTQ6IGNo"
    ∷ codes "YXJsaWUgZGVsdGEgZWNobyBmb3h0cm90CiAgMjU1OiBkZWx0YSBlY2hvIGZveHRyb3Qg"
    ∷ codes "Z29sZgogIDI1NjogZWNobyBmb3h0cm90IGdvbGYgaG90ZWwKICAyNTc6IGZveHRyb3Qg"
    ∷ codes "Z29sZiBob3RlbCBpbmRpYQogIDI1ODogZ29sZiBob3RlbCBpbmRpYSBqdWxpZXQKICAy"
    ∷ codes "NTk6IGhvdGVsIGluZGlhIGp1bGlldCBraWxvCiAgMjYwOiBpbmRpYSBqdWxpZXQga2ls"
    ∷ codes "byBsaW1hCiAgMjYxOiBqdWxpZXQga2lsbyBsaW1hIGFscGhhCiAgMjYyOiBraWxvIGxp"
    ∷ codes "bWEgYWxwaGEgYnJhdm8KICAyNjM6IGxpbWEgYWxwaGEgYnJhdm8gY2hhcmxpZQogIDI2"
    ∷ codes "NDogYWxwaGEgYnJhdm8gY2hhcmxpZSBkZWx0YQogIDI2NTogYnJhdm8gY2hhcmxpZSBk"
    ∷ codes "ZWx0YSBlY2hvCiAgMjY2OiBjaGFybGllIGRlbHRhIGVjaG8gZm94dHJvdAogIDI2Nzog"
    ∷ codes "ZGVsdGEgZWNobyBmb3h0cm90IGdvbGYKICAyNjg6IGVjaG8gZm94dHJvdCBnb2xmIGhv"
    ∷ codes "dGVsCiAgMjY5OiBmb3h0cm90IGdvbGYgaG90ZWwgaW5kaWEKICAyNzA6IGdvbGYgaG90"
    ∷ codes "ZWwgaW5kaWEganVsaWV0CiAgMjcxOiBob3RlbCBpbmRpYSBqdWxpZXQga2lsbwogIDI3"
    ∷ codes "MjogaW5kaWEganVsaWV0IGtpbG8gbGltYQogIDI3MzoganVsaWV0IGtpbG8gbGltYSBh"
    ∷ codes "bHBoYQogIDI3NDoka2lsbyBsaW1hIGFscGhhIGJyYXZvCiAgMjc1OiBsaW1hIGFscGhh"
    ∷ codes "IGJyYXZvIGNoYXJsaWUKICAyNzY6IGFscGhhIGJyYXZvIGNoYXJsaWUgZGVsdGEKICAy"
    ∷ codes "Nzc6IGJyYXZvIGNoYXJsaWUgZGVsdGEgZWNobwogIDI3ODogY2hhcmxpZSBkZWx0YSBl"
    ∷ codes "Y2hvIGZveHRyb3QKICAyNzk6IGRlbHRhIGVjaG8gZm94dHJvdCBnb2xmCiAgMjgwOiBl"
    ∷ codes "Y2hvIGZveHRyb3QgZ29sZiBob3RlbAogIDI4MTogZm94dHJvdCBnb2xmIGhvdGVsIGlu"
    ∷ codes "ZGlhCiAgMjgyOiBnb2xmIGhvdGVsIGluZGlhIGp1bGlldAogIDI4MzogaG90ZWwgaW5k"
    ∷ codes "aWEganVsaWV0IGtpbG8KICAyODQ6IGluZGlhIGp1bGlldCBraWxvIGxpbWEKICAyODU6"
    ∷ codes "IGp1bGlldCBraWxvIGxpbWEgYWxwaGEKICAyODY6IGtpbG8gbGltYSBhbHBoYSBicmF2"
    ∷ codes "bwogIDI4NzogbGltYSBhbHBoYSBicmF2byBjaGFybGllCiAgMjg4OiBhbHBoYSBicmF2"
    ∷ codes "byBjaGFybGllIGRlbHRhCiAgMjg5OiBicmF2byBjaGFybGllIGRlbHRhIGVjaG8KICAy"
    ∷ codes "OTA6IGNoYXJsaWUgZGVsdGEgZWNobyBmb3h0cm90CiAgMjkxOiBkZWx0YSBlY2hvIGZv"
    ∷ codes "eHRyb3QgZ29sZgogIDI5MjogZWNobyBmb3h0cm90IGdvbGYgaG90ZWwKICAyOTM6IGZv"
    ∷ codes "eHRyb3QgZ29sZiBob3RlbCBpbmRpYQogIDI5NDogZ29sZiBob3RlbCBpbmRpYSBqdWxp"
    ∷ codes "ZXQKICAyOTU6IGhvdGVsIGluZGlhIGp1bGlldCBraWxvCiAgMjk2OiBpbmRpYSBqdWxp"
    ∷ codes "ZXQga2lsbyBsaW1hCiAgMjk3OiBqdWxpZXQga2lsbyBsaW1hIGFscGhhCiAgMjk4OiBr"
    ∷ codes "aWxvIGxpbWEgYWxwaGEgYnJhdm8KICAyOTk6IGxpbWEgYWxwaGEgYnJhdm8gY2hhcmxp"
    ∷ codes "ZQogIDMwMDogYWxwaGEgYnJhdm8gY2hhcmxpZSBkZWx0YQoKRG9uZS4gMzAwIGxpbmVz"
    ∷ codes "IHdyaXR0ZW4uCg=="
    ∷ [])

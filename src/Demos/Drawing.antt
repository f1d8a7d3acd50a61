-- ===== src/Demos/Drawing.antt =====
-- frontend/components/ExecutionConsole.tsx: the program that writes an image, in base64.
use isolator_v_wasm_sandbox.Common.{Text, codes, [], ◌∷◌}
use isolator_v_wasm_sandbox.Demos.Wasm.{concat}

unfoldable pub svg_wasm_b64 : Text
unfolding concat
svg_wasm_b64 = concat (
    codes "AGFzbQEAAAABIgVgCX9/f39/fn5/fwF/YAR/f39/AX9gAX8Bf2ABfwBgAAACiwEEFndhc2lfc25hcHNo"
    ∷ codes "b3RfcHJldmlldzEJcGF0aF9vcGVuAAAWd2FzaV9zbmFwc2hvdF9wcmV2aWV3MQhmZF93cml0ZQABFndh"
    ∷ codes "c2lfc25hcHNob3RfcHJldmlldzEIZmRfY2xvc2UAAhZ3YXNpX3NuYXBzaG90X3ByZXZpZXcxCXByb2Nf"
    ∷ codes "ZXhpdAADAwIBBAUDAQABBxMCBm1lbW9yeQIABl9zdGFydAAECl4BXABBAEEQNgIAQQRB4wA2AgBBAUEA"
    ∷ codes "QQFBCBABGkEDQQBB8wBBFkEJQn9Cf0EAQQwQABpBAEGJATYCAEEEQb0hNgIAQQwoAgBBAEEBQQgQARpB"
    ∷ codes "DCgCABACGkEAEAMLC70iAQBBEAu2IlNWRyBJbWFnZSBEZW1vCj09PT09PT09PT09PT09CiAgV3JpdGlu"
    ∷ codes "ZyAvd29ya3NwYWNlL2RpYWdyYW0uc3ZnIC4uLgogIFByZXZpZXcgaXQgaW4gdGhlIGxlZnQgcGFuZWwu"
    ∷ codes "Ci93b3Jrc3BhY2UvZGlhZ3JhbS5zdmc8c3ZnIHhtbG5zPSJodHRwOi8vd3d3LnczLm9yZy8yMDAwL3N2"
    ∷ codes "ZyIgdmlld0JveD0iMCAwIDQ4MCAzMjAiIHdpZHRoPSI0ODAiIGhlaWdodD0iMzIwIj4KICA8ZGVmcz4K"
    ∷ codes "ICAgIDxsaW5lYXJHcmFkaWVudCBpZD0iYmdHcmFkIiB4MT0iMCIgeTE9IjAiIHgyPSIwIiB5Mj0iMSI+"
    ∷ codes "CiAgICAgIDxzdG9wIG9mZnNldD0iMCUiIHN0b3AtY29sb3I9IiMwZjBmMTIiLz4KICAgICAgPHN0b3Ag"
    ∷ codes "b2Zmc2V0PSIxMDAlIiBzdG9wLWNvbG9yPSIjMDgwODBhIi8+CiAgICA8L2xpbmVhckdyYWRpZW50Pgog"
    ∷ codes "ICAgPG1hcmtlciBpZD0iYXJyQmx1ZSIgbWFya2VyV2lkdGg9IjYiIG1hcmtlckhlaWdodD0iNiIgcmVm"
    ∷ codes "WD0iNSIgcmVmWT0iMyIgb3JpZW50PSJhdXRvIj4KICAgICAgPHBhdGggZD0iTTAsMCBMMCw2IEw2LDMg"
    ∷ codes "WiIgZmlsbD0iIzYzNjZmMSIvPgogICAgPC9tYXJrZXI+CiAgICA8bWFya2VyIGlkPSJhcnJHcmVlbiIg"
    ∷ codes "bWFya2VyV2lkdGg9IjYiIG1hcmtlckhlaWdodD0iNiIgcmVmWD0iNSIgcmVmWT0iMyIgb3JpZW50PSJh"
    ∷ codes "dXRvIj4KICAgICAgPHBhdGggZD0iTTAsMCBMMCw2IEw2LDMgWiIgZmlsbD0iIzIyYzU1ZSIvPgogICAg"
    ∷ codes "PC9tYXJrZXI+CiAgPC9kZWZzPgoKICA8IS0tIEJhY2tncm91bmQgLS0+CiAgPHJlY3Qgd2lkdGg9IjQ4"
    ∷ codes "MCIgaGVpZ2h0PSIzMjAiIGZpbGw9InVybCgjYmdHcmFkKSIgcng9IjgiLz4KCiAgPCEtLSBUaXRsZSAt"
    ∷ codes "LT4KICA8dGV4dCB4PSIyNDAiIHk9IjM2IiBmb250LWZhbWlseT0ibW9ub3NwYWNlIiBmb250LXNpemU9"
    ∷ codes "IjE1IiBmaWxsPSIjZThlOGYwIgogICAgICAgIHRleHQtYW5jaG9yPSJtaWRkbGUiIGZvbnQtd2VpZ2h0"
    ∷ codes "PSJib2xkIj5Jc29sYXRvci1WIFBpcGVsaW5lPC90ZXh0PgogIDxsaW5lIHgxPSI2MCIgeTE9IjQ2IiB4"
    ∷ codes "Mj0iNDIwIiB5Mj0iNDYiIHN0cm9rZT0iIzYzNjZmMSIgc3Ryb2tlLXdpZHRoPSIxIiBvcGFjaXR5PSIw"
    ∷ codes "LjQiLz4KCiAgPCEtLSBCcm93c2VyIGJveCAtLT4KICA8cmVjdCB4PSIyMCIgeT0iNzAiIHdpZHRoPSI4"
    ∷ codes "MCIgaGVpZ2h0PSI0MCIgcng9IjYiIGZpbGw9IiMxNjE2MWMiIHN0cm9rZT0iIzYzNjZmMSIgc3Ryb2tl"
    ∷ codes "LXdpZHRoPSIxLjUiLz4KICA8dGV4dCB4PSI2MCIgeT0iOTUiIGZvbnQtZmFtaWx5PSJtb25vc3BhY2Ui"
    ∷ codes "IGZvbnQtc2l6ZT0iMTEiIGZpbGw9IiNlOGU4ZjAiIHRleHQtYW5jaG9yPSJtaWRkbGUiPkJyb3dzZXI8"
    ∷ codes "L3RleHQ+CgogIDwhLS0gT3JjaGVzdHJhdG9yIGJveCAtLT4KICA8cmVjdCB4PSIxNDAiIHk9IjcwIiB3"
    ∷ codes "aWR0aD0iMTAwIiBoZWlnaHQ9IjQwIiByeD0iNiIgZmlsbD0iIzE2MTYxYyIgc3Ryb2tlPSIjNjM2NmYx"
    ∷ codes "IiBzdHJva2Utd2lkdGg9IjEuNSIvPgogIDx0ZXh0IHg9IjE5MCIgeT0iODgiIGZvbnQtZmFtaWx5PSJt"
    ∷ codes "b25vc3BhY2UiIGZvbnQtc2l6ZT0iMTAiIGZpbGw9IiNlOGU4ZjAiIHRleHQtYW5jaG9yPSJtaWRkbGUi"
    ∷ codes "Pk9yY2hlc3RyYXRvcjwvdGV4dD4KICA8dGV4dCB4PSIxOTAiIHk9IjEwMSIgZm9udC1mYW1pbHk9Im1v"
    ∷ codes "bm9zcGFjZSIgZm9udC1zaXplPSI5IiBmaWxsPSIjNzA3MGEwIiB0ZXh0LWFuY2hvcj0ibWlkZGxlIj4o"
    ∷ codes "R28pPC90ZXh0PgoKICA8IS0tIFdvcmtlciBib3ggLS0+CiAgPHJlY3QgeD0iMjgwIiB5PSI3MCIgd2lk"
    ∷ codes "dGg9IjEwMCIgaGVpZ2h0PSI0MCIgcng9IjYiIGZpbGw9IiMxNjE2MWMiIHN0cm9rZT0iIzYzNjZmMSIg"
    ∷ codes "c3Ryb2tlLXdpZHRoPSIxLjUiLz4KICA8dGV4dCB4PSIzMzAiIHk9Ijg4IiBmb250LWZhbWlseT0ibW9u"
    ∷ codes "b3NwYWNlIiBmb250LXNpemU9IjEwIiBmaWxsPSIjZThlOGYwIiB0ZXh0LWFuY2hvcj0ibWlkZGxlIj53"
    ∷ codes "YXNtLXdvcmtlcjwvdGV4dD4KICA8dGV4dCB4PSIzMzAiIHk9IjEwMSIgZm9udC1mYW1pbHk9Im1vbm9z"
    ∷ codes "cGFjZSIgZm9udC1zaXplPSI5IiBmaWxsPSIjNzA3MGEwIiB0ZXh0LWFuY2hvcj0ibWlkZGxlIj4oUnVz"
    ∷ codes "dCk8L3RleHQ+CgogIDwhLS0gd2FzbXRpbWUgYm94IC0tPgogIDxyZWN0IHg9IjQwMCIgeT0iNzAiIHdp"
    ∷ codes "ZHRoPSI2NSIgaGVpZ2h0PSI0MCIgcng9IjYiIGZpbGw9IiMxNjE2MWMiIHN0cm9rZT0iIzhiNWNmNiIg"
    ∷ codes "c3Ryb2tlLXdpZHRoPSIxLjUiLz4KICA8dGV4dCB4PSI0MzIiIHk9Ijg4IiBmb250LWZhbWlseT0ibW9u"
    ∷ codes "b3NwYWNlIiBmb250LXNpemU9IjEwIiBmaWxsPSIjYzA4NGZjIiB0ZXh0LWFuY2hvcj0ibWlkZGxlIj53"
    ∷ codes "YXNtdGltZTwvdGV4dD4KICA8dGV4dCB4PSI0MzIiIHk9IjEwMSIgZm9udC1mYW1pbHk9Im1vbm9zcGFj"
    ∷ codes "ZSIgZm9udC1zaXplPSI5IiBmaWxsPSIjNzA3MGEwIiB0ZXh0LWFuY2hvcj0ibWlkZGxlIj4yNS4wPC90"
    ∷ codes "ZXh0PgoKICA8IS0tIFRvcCByb3cgYXJyb3dzIC0tPgogIDxsaW5lIHgxPSIxMDAiIHkxPSI5MCIgeDI9"
    ∷ codes "IjEzOCIgeTI9IjkwIiBzdHJva2U9IiM2MzY2ZjEiIHN0cm9rZS13aWR0aD0iMS41IiBtYXJrZXItZW5k"
    ∷ codes "PSJ1cmwoI2FyckJsdWUpIi8+CiAgPGxpbmUgeDE9IjI0MCIgeTE9IjkwIiB4Mj0iMjc4IiB5Mj0iOTAi"
    ∷ codes "IHN0cm9rZT0iIzYzNjZmMSIgc3Ryb2tlLXdpZHRoPSIxLjUiIG1hcmtlci1lbmQ9InVybCgjYXJyQmx1"
    ∷ codes "ZSkiLz4KICA8bGluZSB4MT0iMzgwIiB5MT0iOTAiIHgyPSIzOTciIHkyPSI5MCIgc3Ryb2tlPSIjOGI1"
    ∷ codes "Y2Y2IiBzdHJva2Utd2lkdGg9IjEuNSIgbWFya2VyLWVuZD0idXJsKCNhcnJCbHVlKSIvPgoKICA8IS0t"
    ∷ codes "IEFycm93IGxhYmVscyAtLT4KICA8dGV4dCB4PSIxMTkiIHk9Ijg0IiBmb250LWZhbWlseT0ibW9ub3Nw"
    ∷ codes "YWNlIiBmb250LXNpemU9IjgiIGZpbGw9IiM3MDcwYTAiIHRleHQtYW5jaG9yPSJtaWRkbGUiPldTPC90"
    ∷ codes "ZXh0PgogIDx0ZXh0IHg9IjI1OSIgeT0iODQiIGZvbnQtZmFtaWx5PSJtb25vc3BhY2UiIGZvbnQtc2l6"
    ∷ codes "ZT0iOCIgZmlsbD0iIzcwNzBhMCIgdGV4dC1hbmNob3I9Im1pZGRsZSI+SFRUUDwvdGV4dD4KCiAgPCEt"
    ∷ codes "LSBWRlMgYm94IC0tPgogIDxyZWN0IHg9IjE0MCIgeT0iMTcwIiB3aWR0aD0iMjAwIiBoZWlnaHQ9IjUw"
    ∷ codes "IiByeD0iNiIgZmlsbD0iIzE2MTYxYyIgc3Ryb2tlPSIjMjJjNTVlIiBzdHJva2Utd2lkdGg9IjEuNSIv"
    ∷ codes "PgogIDx0ZXh0IHg9IjI0MCIgeT0iMTkyIiBmb250LWZhbWlseT0ibW9ub3NwYWNlIiBmb250LXNpemU9"
    ∷ codes "IjExIiBmaWxsPSIjZThlOGYwIiB0ZXh0LWFuY2hvcj0ibWlkZGxlIj5WaXJ0dWFsIEZpbGVzeXN0ZW08"
    ∷ codes "L3RleHQ+CiAgPHRleHQgeD0iMjQwIiB5PSIyMDgiIGZvbnQtZmFtaWx5PSJtb25vc3BhY2UiIGZvbnQt"
    ∷ codes "c2l6ZT0iOSIgZmlsbD0iIzRhZGU4MCIgdGV4dC1hbmNob3I9Im1pZGRsZSI+L3dvcmtzcGFjZS8gKGlu"
    ∷ codes "bGluZSBzbmFwc2hvdCk8L3RleHQ+CgogIDwhLS0gQXJyb3cgZnJvbSB3b3JrZXIgZG93biB0byBWRlMg"
    ∷ codes "LS0+CiAgPGxpbmUgeDE9IjMzMCIgeTE9IjExMiIgeDI9IjMzMCIgeTI9IjE2MiIgc3Ryb2tlPSIjMjJj"
    ∷ codes "NTVlIiBzdHJva2Utd2lkdGg9IjEuMiIgc3Ryb2tlLWRhc2hhcnJheT0iNCwzIi8+CiAgPGxpbmUgeDE9"
    ∷ codes "IjMzMCIgeTE9IjE2MiIgeDI9IjI4MiIgeTI9IjE2OCIgc3Ryb2tlPSIjMjJjNTVlIiBzdHJva2Utd2lk"
    ∷ codes "dGg9IjEuMiIgbWFya2VyLWVuZD0idXJsKCNhcnJHcmVlbikiLz4KCiAgPCEtLSBTdGF0dXMgbGVnZW5k"
    ∷ codes "IC0tPgogIDxjaXJjbGUgY3g9IjQ0IiAgY3k9IjI1MiIgcj0iNSIgZmlsbD0iIzIyYzU1ZSIvPgogIDx0"
    ∷ codes "ZXh0IHg9IjU1IiAgeT0iMjU2IiBmb250LWZhbWlseT0ibW9ub3NwYWNlIiBmb250LXNpemU9IjEwIiBm"
    ∷ codes "aWxsPSIjZThlOGYwIj5jb21wbGV0ZTwvdGV4dD4KICA8Y2lyY2xlIGN4PSIxMzAiIGN5PSIyNTIiIHI9"
    ∷ codes "IjUiIGZpbGw9IiNlZjQ0NDQiLz4KICA8dGV4dCB4PSIxNDEiIHk9IjI1NiIgZm9udC1mYW1pbHk9Im1v"
    ∷ codes "bm9zcGFjZSIgZm9udC1zaXplPSIxMCIgZmlsbD0iI2U4ZThmMCI+Y3Jhc2hlZDwvdGV4dD4KICA8Y2ly"
    ∷ codes "Y2xlIGN4PSIyMTYiIGN5PSIyNTIiIHI9IjUiIGZpbGw9IiNmNTllMGIiLz4KICA8dGV4dCB4PSIyMjci"
    ∷ codes "IHk9IjI1NiIgZm9udC1mYW1pbHk9Im1vbm9zcGFjZSIgZm9udC1zaXplPSIxMCIgZmlsbD0iI2U4ZThm"
    ∷ codes "MCI+bm9uLXplcm88L3RleHQ+CiAgPGNpcmNsZSBjeD0iMzE4IiBjeT0iMjUyIiByPSI1IiBmaWxsPSIj"
    ∷ codes "NjM2NmYxIi8+CiAgPHRleHQgeD0iMzI5IiB5PSIyNTYiIGZvbnQtZmFtaWx5PSJtb25vc3BhY2UiIGZv"
    ∷ codes "bnQtc2l6ZT0iMTAiIGZpbGw9IiNlOGU4ZjAiPnJ1bm5pbmc8L3RleHQ+CgogIDwhLS0gRm9vdGVyIC0t"
    ∷ codes "PgogIDx0ZXh0IHg9IjI0MCIgeT0iMjk4IiBmb250LWZhbWlseT0ibW9ub3NwYWNlIiBmb250LXNpemU9"
    ∷ codes "IjkiIGZpbGw9IiM0MDQwNjAiCiAgICAgICAgdGV4dC1hbmNob3I9Im1pZGRsZSI+V3JpdHRlbiBieSBo"
    ∷ codes "YW5kLWFzc2VtYmxlZCBXQVNNICB8ICBJc29sYXRvci1WPC90ZXh0Pgo8L3N2Zz4K"
    ∷ [])

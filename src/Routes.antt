-- ===== src/Routes.antt =====
-- internal/generator/openapi.go: the routes of a project and their operation ids (getAllRoutes,
-- groupRoutesByPath, emittedRoutes, routeKey, assignOperationIDs, baseOperationID).
pub mod Emitted
pub mod Ids
pub mod Fresh
pub mod Unique
pub mod First
